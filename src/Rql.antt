-- ===== src/Rql.antt =====
-- The query language (api/rql): values, predicates, their evaluation and their wire format.
pub mod Outcome
pub mod Host
pub mod Any
pub mod Ast
pub mod Entry
pub mod Eval
pub mod Reduce
pub mod Schema
pub mod EvalSchema
pub mod Prune
pub mod Walk
pub mod Panics
pub mod Wire
mod Examples

-- ===== src/Rql/Wire.antt =====
-- The wire format of queries: the Marshal and Unmarshal methods of the nodes
-- (api/rql/internal/predicate, primary and predicate/expression, api/rql/ast).
pub mod Marshal
pub mod Atoms
pub mod Unmarshal
pub mod Writable
pub mod Levels
pub mod Leaves
pub mod RoundTrip

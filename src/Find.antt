-- ===== src/Find.antt =====
-- The find command (cmd/internal/find): its expression parser with the evaluation stack, and the
-- numbers of its primaries.
pub mod EvalStack
pub mod Parser
pub mod Numeric

-- ===== src/Munge.antt =====
-- The munge package (munge/): values of loose types made into the types that wash uses.
pub mod Mode

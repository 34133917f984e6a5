-- ===== src/Fuse.antt =====
-- The FUSE server (fuse/): the file node.
pub mod File

-- ===== src/Datastore.antt =====
-- The datastore package (datastore/): the cache of the results of plugin operations.
pub mod GoCache
pub mod MemCache

-- ===== src/Plugin.antt =====
-- The plugin package (plugin/): the content of entries, their base, and the cache of operations.
pub mod Content
pub mod EntryBase
pub mod Keys
pub mod Listing
pub mod Cache
pub mod Ids
pub mod Children
pub mod Listed
mod Examples
pub mod Clearing
pub mod Segments
pub mod Ancestor

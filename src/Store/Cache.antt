-- ===== src/Store/Cache.antt =====
-- server/store.py: the message cache of /feed, its set of ids and the serialized feed.
pub mod Defs
pub mod Bounds
pub mod Dedup
pub mod Log
pub mod Views
pub mod Feed

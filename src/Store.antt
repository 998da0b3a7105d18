-- ===== src/Store.antt =====
-- server/store.py
pub mod Cache
pub mod Defs
pub mod Append
pub mod Writer
pub mod Limits
pub mod Sealed
pub mod Visible

-- ===== src/Rooms.antt =====
-- server/rooms.py: `RoomManager` and `_safe_send`. The room log line is not modelled.
pub mod Members
pub mod Persist
pub mod Listing
pub mod Broadcast
pub mod Defs
pub mod Bounds

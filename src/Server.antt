-- ===== src/Server.antt =====
-- server/ws_server.py: `WSServer`.
pub mod Names
pub mod RateLimiter
pub mod Limits
pub mod Defs
pub mod Handlers
pub mod RoomHandlers
pub mod Session

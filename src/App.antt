-- ===== src/App.antt =====
-- app.py: the HTTP routes that carry messages.
pub mod Routes
pub mod Files
pub mod Defs
pub mod Lifespan

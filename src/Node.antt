-- ===== src/Node.antt =====
-- The whole node: the background work beside the handlers, and its runs.
pub mod Defs
pub mod Steps
pub mod Limits
pub mod Runs
pub mod Start
pub mod Accepted
pub mod Durable
pub mod Unstored
pub mod Batches
pub mod Spread
pub mod Said
pub mod Lifespan
pub mod Ending
pub mod Direct
pub mod Circulation
pub mod Welcome
pub mod Delivery
pub mod Typed

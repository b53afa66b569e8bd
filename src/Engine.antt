-- ===== src/Engine.antt =====
-- internal/engine: what the other packages see of the Matrix client.
pub mod SendTypes
pub mod Rooms
pub mod Html
pub mod Calls
pub mod Media
pub mod Client

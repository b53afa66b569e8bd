-- ===== src/Sync.antt =====
-- internal/sync: what happens to the events that the homeserver sends.
pub mod Dedup
pub mod Event
pub mod Handlers
pub mod Normalize
pub mod Loop

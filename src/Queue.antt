-- ===== src/Queue.antt =====
-- internal/queue: the payload codec, the retry schedule and the QueueManager.
pub mod Payload
pub mod Retry
pub mod Manager

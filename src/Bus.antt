-- ===== src/Bus.antt =====
-- internal/bus: the events and the in-process broker.
pub mod Events
pub mod Local

-- ===== src/Correlation.antt =====
-- internal/correlation: filters, and the asks and receives that wait for matching events.
pub mod Filter
pub mod Requests
pub mod AskFilter
pub mod Manager

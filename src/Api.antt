-- ===== src/Api.antt =====
-- internal/api: the HTTP handlers, as functions from decoded requests to responses.
pub mod Response
pub mod Auth
pub mod Payload
pub mod RateLimit
pub mod Send
pub mod Filter
pub mod Events

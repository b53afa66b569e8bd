-- ===== src/Admin.antt =====
-- internal/admin: the management of API keys.
pub mod Keys
pub mod Views

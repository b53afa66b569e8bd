-- ===== src/Persistence.antt =====
-- internal/persistence: the SQLite tables behind their stores. A table is the list of its rows in
-- order of insertion. Whether the driver fails at a statement is the environment's choice.
pub mod Statement
pub mod Queue
pub mod EventCache
pub mod Correlations
pub mod ApiKeys
pub mod SyncStore
pub mod Migrate

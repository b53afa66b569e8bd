-- ===== src/Scenarios.antt =====
-- Tests of the definitions, and the theorems at concrete inputs.
mod QueueStore
mod QueueManager
mod Workers
mod Submissions
mod Filters
mod Requests
mod Broker
mod Asks
mod ApiKeys
mod Sends
mod Dedup
mod Correlations
mod Normalize
mod Loops
mod Client
mod Configs
mod Accounts
mod Migrations
mod Views

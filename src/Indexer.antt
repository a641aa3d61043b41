-- ===== src/Indexer.antt =====
-- The indexer, .indexer: its tables, its event handlers, its block scanner and its queries.
pub mod Rows
pub mod Models
pub mod Accounts
pub mod Handlers
pub mod Dispatch
pub mod Effects
pub mod Scanner
pub mod Sync
pub mod Resolvers
pub mod Queries

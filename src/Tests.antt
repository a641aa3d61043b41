-- ===== src/Tests.antt =====
-- Small inputs for the models, and what the theorems say of them.
mod Data
mod Margin
mod Executor
mod Keeper
mod Cycle
mod Indexer
mod Engine
mod Retry
mod Sources
mod Queries
mod Upkeep
mod Refresh
mod Upgrade
mod Overlap
mod Deploy
mod Steps

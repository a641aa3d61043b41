-- ===== src/Engine.antt =====
-- The engine, .perps-engine: its scanners, which find the orders and positions of a cycle and leave
-- the execution to the contract.
pub mod Cache
pub mod Orders
pub mod Liquidations
pub mod Prices
pub mod Orderly
pub mod Deviation
pub mod Cycle
pub mod Submitter
pub mod Sources
pub mod Main
pub mod Overlap
pub mod Startup
pub mod Health
pub mod Refresh

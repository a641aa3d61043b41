-- ===== src/Keeper.antt =====
-- The keeper node, .keeper: its cache, its scanners, its transaction executor and its cycle.
pub mod Cache
pub mod Refresh
pub mod Orders
pub mod Liquidations
pub mod Executor
pub mod Vamm
pub mod Events
pub mod Cycle
pub mod Upkeep

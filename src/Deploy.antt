-- ===== src/Deploy.antt =====
-- Scripts that set the protocol up, over the facets of the Diamond that they call.
pub mod Facets
pub mod Sending
pub mod Markets
pub mod Pools
pub mod Steps

-- ===== src/Fondamenta/Discovery.antt =====
-- src/fondamenta/discovery: the routing of paths to peers, and the queries over all of them.
pub mod QueryAggregator
pub mod ConnectionManager
pub mod Pinning
pub mod PathRouter
pub mod Names
pub mod Aggregation
pub mod Routing
pub mod Handles

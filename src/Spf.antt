-- ===== src/Spf.antt =====
-- Layer5/spf_algo/spf.c: the shortest paths from a node and the routes that they give.
pub mod Topology
pub mod Arrays
pub mod Compute
pub mod Refs
pub mod Counted
pub mod Steps
pub mod Queue
pub mod Relax
pub mod Explore
pub mod Process
pub mod Direct
pub mod Shortest
pub mod Routes

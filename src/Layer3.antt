-- ===== src/Layer3.antt =====
-- The network layer: the routing table and its nexthops.
pub mod Nexthops
pub mod RtTable
pub mod Demote
pub mod Packet
pub mod Addresses

-- ===== src/Isis.antt =====
-- Layer5/isis: the adjacencies and the LSP database of the IS-IS protocol.
pub mod Node
pub mod Adjacency
pub mod Hello
pub mod States
pub mod Update
pub mod Receive
pub mod Lspdb
pub mod Newest
pub mod Settled
pub mod Arrival

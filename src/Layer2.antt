-- ===== src/Layer2.antt =====
-- The data link layer: frames and their VLAN tags, the mode of an interface, which frames an
-- interface accepts, and the learning switch.
pub mod Frame
pub mod Mode
pub mod Qualify
pub mod MacTable
pub mod Switch
pub mod Arp
pub mod Forward

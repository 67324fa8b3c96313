-- ===== src/Tests.antt =====
-- Runs of the code and the theorems at inputs that meet their hypotheses.
mod Layer2Tests
mod Layer3Tests
mod ArpTests
mod PacketTests
mod TlvTests
mod GluethreadTests
mod WheelTests
mod AddressTests
mod IsisTests
mod SpfTests

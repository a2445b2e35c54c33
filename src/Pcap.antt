-- ===== src/Pcap.antt =====
-- The packet-capture ring, src/pcap.c: `Ring` is its state and operations, `Holds` the stream of
-- records in it.
pub mod Ring
pub mod Holds
pub mod Evict
pub mod Capture
pub mod Room
pub mod Run
mod Tests

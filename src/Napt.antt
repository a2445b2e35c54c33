-- ===== src/Napt.antt =====
-- The station-edge NAT of exit mode, src/napt.c: `Table` is the mapping table, `Checksum` the
-- incremental checksum update, `Packet` the header view and the MSS clamp, `Translate` the two
-- packet paths.
pub mod Checksum
pub mod Table
pub mod Packet
pub mod Translate
pub mod ChecksumLaws
pub mod Frame
pub mod Search
pub mod Fields
pub mod Outbound
pub mod Accepts
pub mod Inbound
pub mod RoundTrip
pub mod Ports
pub mod Sums
mod Tests

-- ===== src/WifiPick.antt =====
-- The candidate ordering of the connection manager, src/wifi_pick.c: `Order` is the code, `Ranked`
-- what its loops build, `Laws` what the order is.
pub mod Order
pub mod Ranked
pub mod Laws
mod Tests

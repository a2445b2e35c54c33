-- ===== src/WifiScan.antt =====
-- The results of a network scan, src/wifi_scan.c: `Table` is the array and the callback that fills it,
-- `Names`, `Merge` and `Scanned` are about what it holds.
pub mod Table
pub mod Names
pub mod Merge
pub mod Scanned
mod Tests

-- ===== src/ConfigProto.antt =====
-- The control protocol, src/config_proto.c: `Text` is what it takes from C's string library and its
-- parsers, `Set` and `Routes` the keys of the command `set`, `Command` their dispatch, `Console` the
-- menu and the scan, `Menu` and `Line` the commands of the menus. `Stored` is the form of the
-- configuration; `SetLaws`, `RoutesLaws`, `KeyLaws`, `JoinLaws` and `MenuLaws` are about what keeps
-- it, `ScanLaws` is about scans.
pub mod Text
pub mod Set
pub mod Routes
pub mod Command
pub mod Stored
pub mod SetLaws
mod RoutesLaws
pub mod KeyLaws
pub mod Console
pub mod Menu
pub mod Line
pub mod JoinLaws
pub mod MenuLaws
pub mod ScanLaws
mod Tests

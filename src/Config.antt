-- ===== src/Config.antt =====
-- The persistent configuration, src/config.c and src/config.h: `Record` is the record, `Profiles`
-- the operations on the list of saved networks, `ProfileLaws` and `Lookup` their laws, `Complete` and
-- `CompleteLaws` the tests that the tunnel and the access point are set up. `Storage` is loading and
-- saving, `StorageLaws`, `Checksum` and `Damage` are about what is loaded after a record was saved.
pub mod Record
pub mod Profiles
pub mod ProfileLaws
pub mod Lookup
pub mod Complete
pub mod CompleteLaws
pub mod Storage
pub mod StorageLaws
pub mod Checksum
mod Damage
mod Tests

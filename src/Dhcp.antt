-- ===== src/Dhcp.antt =====
-- The DHCP server, src/dhcp_server.c: `Options` is the option search and writer, `Server` the scopes
-- and the receive handler.
pub mod Options
pub mod Server
pub mod OptionLaws
pub mod ReplyLaws
pub mod ReplyBounds
pub mod Request
pub mod Handler
mod Tests

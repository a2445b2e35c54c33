-- ===== src/SerialBridge.antt =====
-- The serial party line, src/serial_bridge.c: `State` is its static data and the hardware, `Telnet`
-- the telnet layer, `Line` the endpoints and the pump, `Tcp` the callbacks and the set-up. `Framing`,
-- `Subnegotiation` and `Commands` are about the telnet layer, `Delivery`, `Pump`, `Moves`, `Task`,
-- `Heard` and `Drain` about the pump, `Invariant`, `Settled`, `Reach` and
-- `Accept` about the connection.
pub mod State
pub mod Telnet
pub mod Line
pub mod Tcp
pub mod Framing
pub mod Subnegotiation
pub mod Commands
pub mod Delivery
pub mod Pump
pub mod Moves
pub mod Task
pub mod Heard
mod Drain
pub mod Invariant
pub mod Settled
pub mod Reach
mod Accept
mod Tests

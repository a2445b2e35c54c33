-- ===== src/WifiConn.antt =====
-- The connection manager, src/wifi_conn.c: `Machine` is its state and steps, `Task` the tick of the
-- main loop, `Invariant`, `Sound`,
-- `Steps` and `Reach` are about the states that it reaches, `Attempt` about the candidate it tries.
pub mod Machine
pub mod Task
pub mod Invariant
pub mod Sound
pub mod Steps
pub mod Reach
pub mod Attempt
mod Tests

-- ===== src/SerialConsole.antt =====
-- The console on the USB serial port, src/serial_console.c: `Task` is its state and its task, `Laws`
-- is about the configuration and the line under any input, `Typing` about the line that is handed on.
pub mod Task
pub mod Laws
pub mod Typing
mod Tests

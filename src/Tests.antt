-- ===== src/Tests.antt =====
-- Runs at concrete inputs: a small controller, a small driver, and each theorem applied to them.
pub mod Pipe
pub mod Ehci
pub mod Usb
pub mod Hub
pub mod Config
pub mod Async
pub mod Console
pub mod Program
pub mod Transfer
pub mod Table

-- ===== src/Client.antt =====
-- src/client.rs. The state, the methods and the poll are children; so are the modules that prove
-- their laws.
pub mod State
pub mod Firmware
pub mod Methods
pub mod Handle
pub mod Poll
pub mod Invariant
pub mod Safety
pub mod Arming
pub mod Watchdog
pub mod Link
pub mod Correlation
pub mod Replay

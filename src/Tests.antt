-- ===== src/Tests.antt =====
-- The theorems at concrete inputs.
pub mod Web
pub mod Session
pub mod Failures
pub mod Files
pub mod Device
pub mod Startup
pub mod Network
pub mod Losses
pub mod Calls
pub mod Tasks
pub mod Messages
pub mod Shelf
pub mod Turns
pub mod Splash
pub mod Static

-- ===== src/Tests.antt =====
-- Runs of the definitions on small inputs, and the theorems applied to them.
pub mod Scenario
pub mod Streaming
pub mod Ring
pub mod Driver
pub mod Commands
pub mod Copying
pub mod Timing
pub mod Events
pub mod Playing
pub mod Tuning
pub mod Modulation
pub mod Conversion
pub mod Chip
pub mod Search
pub mod Radio
pub mod Starting

-- ===== src/Temperature.antt =====
-- app/temperature_manager.py: `TemperatureManager`, which turns the readings of the 1-Wire sensors
-- into a health for each role.
pub mod Types
pub mod Assignments
pub mod Snapshots
pub mod Samples
pub mod Consistent
pub mod Accepted

-- ===== src/Heater.antt =====
-- app/heater_controller.py: `HeaterController`, the authority over every control operation.
pub mod Types
pub mod Base
pub mod Sensors
pub mod Requests
pub mod Link
pub mod Confirm
pub mod Sessions
pub mod Attempts
pub mod Control
pub mod Sent
pub mod Orders
pub mod Cycle
pub mod Checks
pub mod Policy
pub mod Expiry
pub mod Safety
pub mod Silent

-- ===== src/Examples.antt =====
-- Concrete frames, transports and controllers, at which the theorems are applied.
mod Wire
mod Link
mod Control
mod Thermometer
mod Traffic
mod Hours
mod Timers
mod Corrections

-- ===== src/Scheduler.antt =====
-- app/scheduler.py: the timers, and the start intents that they make.
pub mod Types
pub mod Timers
pub mod Trust
pub mod Steps
pub mod History
pub mod Handoff
pub mod Due
pub mod Justified
pub mod Starts
pub mod Marks
pub mod Once
pub mod Allowed
pub mod Confirmed
pub mod Accepted

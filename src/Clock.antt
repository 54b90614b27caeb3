-- ===== src/Clock.antt =====
-- services/time_service.py: the calendar and the timezone rules.
pub mod Calendar
pub mod Months
pub mod RoundTrip
pub mod Zone
pub mod Occurrences
pub mod Kinds
pub mod State
pub mod Corrections
pub mod Snapshot
pub mod Quiet
pub mod Agree
pub mod Coherent
pub mod Calls
pub mod Locks

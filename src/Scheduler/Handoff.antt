-- ===== src/Scheduler/Handoff.antt =====
-- app/scheduler.py: the two phases in which an intent is handed to the control, and the end of its session.
mod Records
mod Authorize
mod Complete
unfoldable pub use Records.*
unfoldable pub use Authorize.*
unfoldable pub use Complete.*

-- ===== src/RateLimit.antt =====
-- services/rest_rate_limiter.py: the request quotas of the local service's peers.
pub mod Peers
pub mod Limiter
pub mod Tables
pub mod Windows
pub mod Quotas
pub mod Calls
pub mod Places
pub mod Known
pub mod Admitted
pub mod Followed
pub mod Cooldown
pub mod Pause
pub mod Windowed

-- ===== src/Login.antt =====
-- backend/app/auth/rate_limit.py, and the login of backend/app/api/auth.py that it guards.
pub mod Limiter
pub mod Attempts
pub mod Throttles
pub mod Lockout
pub mod Refusals
pub mod Counting
pub mod Waiting
mod Examples

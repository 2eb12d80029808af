-- ===== src/Policy.antt =====
-- backend/app/services/transfer_policy.py: the limits that an administrator may set.
pub mod Fields
pub mod Transfer
pub mod Limits
pub mod RoundTrip
pub mod Updates
mod Examples
mod Unary

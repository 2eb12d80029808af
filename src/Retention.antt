-- ===== src/Retention.antt =====
-- backend/app/services/storage_retention.py: what a cleanup of the stored bundles removes.
pub mod Keys
pub mod Cleanup
pub mod Deliveries
pub mod Workspaces
pub mod Report
pub mod Kept
pub mod Spared
pub mod Bytes
mod Examples

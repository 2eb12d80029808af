-- ===== src/Manager.antt =====
-- backend/app/services/operation_manager.py: the operations table and the background workers.
pub mod Model
pub mod Artifacts
pub mod Context
pub mod Service
pub mod Recovery
pub mod Table
pub mod Soundness
pub mod Consistency
pub mod Restart
pub mod History
pub mod System
pub mod Workers
mod Examples

-- ===== src/Runtime.antt =====
-- backend/app/services/runtime_mode.py and correlated_operation_manager.py: the SOURCE or TARGET mode
-- of the portal, and the operations that start under it.
pub mod Mode
pub mod Switching
pub mod Starts
pub mod Commits
pub mod Barrier
pub mod Pinned
pub mod Bound
mod Examples

-- ===== src/Profiles.antt =====
-- The Harbor profiles, and the operations that are bound to one.
pub mod Words
pub mod Model
pub mod Service
pub mod Editing
pub mod Lookup
pub mod Requests
pub mod Keeps
pub mod Stable
mod Examples

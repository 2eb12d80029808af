-- ===== src/Import.antt =====
-- The import of the artifacts of a verified bundle into TARGET.
pub mod Loop
pub mod Worker
pub mod Imported
pub mod Counts
pub mod Settles
mod Examples

-- ===== src/Domain.antt =====
-- backend/app/domain: statuses and the transitions between them.
pub mod Status
pub mod Transitions

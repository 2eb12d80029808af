-- ===== src/Destination.antt =====
-- The destination plan of an import.
pub mod Model
pub mod Patterns
pub mod Coordinates
pub mod Collisions
pub mod Planning
pub mod Artifact
pub mod Identity
pub mod Persisted
pub mod Build
pub mod Start
pub mod Valid
pub mod Once
pub mod Projection
pub mod Projected
pub mod Validator
pub mod Granted
pub mod Writable
pub mod Caching
pub mod Session
pub mod Started
pub mod Submitted
pub mod Exact
pub mod SourceRepository
pub mod Defaults
pub mod Precedence
mod Answers
mod Examples

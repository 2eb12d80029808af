-- ===== src/Bundle.antt =====
-- backend/app/services/bundle_package_service.py and backend/app/domain/protocol.py: what a signed
-- bundle has to be for the portal to accept it.
pub mod Text
pub mod Members
pub mod Safety
pub mod Accepted
pub mod Limits
pub mod Checksums
pub mod RoundTrip
pub mod Manifest
pub mod Inspection
pub mod Layout
pub mod Verification
pub mod Authentic
pub mod Listed
pub mod Proofs
pub mod Payload
pub mod Accepts
mod Examples

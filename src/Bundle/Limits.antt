-- ===== src/Bundle/Limits.antt =====
-- The configured limits of BundlePackageService, and the checks of names and sizes by them.
use harbor_transfer_portal.Base.{
  Bool, Result, String, count, ltb, not, refuse_if, ℕ, ◌&&◌, ◌==◌, ◌>>◌, ◌||◌,
}
use harbor_transfer_portal.Bundle.Members.{has_forbidden, in_payload, is_critical}
use harbor_transfer_portal.Bundle.Text.{
  Text, among, codes, encoded_length, is_absolute, is_empty, parts, posix_path,
}

pub record BundleLimits : Type 0 where
  pub bundle_max_archive_bytes : ℕ
  pub bundle_max_extracted_bytes : ℕ
  pub bundle_max_member_count : ℕ
  pub bundle_max_path_bytes : ℕ
  pub bundle_max_metadata_bytes : ℕ

abbrev pub BundleResult {ℓ} : Type ℓ → Type ℓ
BundleResult A = Result String A

-- The guards of _validate_member_name.
unfoldable pub is_unsafe_name : BundleLimits → Text → Bool
is_unsafe_name l name =
    is_empty name
    || is_absolute (posix_path name)
    || among (codes "..") (parts (posix_path name))
    || among (codes ".") (parts (posix_path name))
    || has_forbidden name
    || ltb l.bundle_max_path_bytes (encoded_length name)

-- _validate_member_name
abbrev pub validate_member_name : BundleLimits → Text → BundleResult (Unit {0})
validate_member_name l name = refuse_if (is_unsafe_name l name) "bundle_archive_unsafe"

-- _validate_top_level
abbrev pub validate_top_level : Text → BundleResult (Unit {0})
validate_top_level name =
    refuse_if (not (is_critical name) && not (in_payload name)) "bundle_archive_unsafe"

-- _check_archive_size
unfoldable pub check_archive_size : BundleLimits → ℕ → BundleResult (Unit {0})
check_archive_size l size =
    refuse_if (size == 0 || ltb l.bundle_max_archive_bytes size) "bundle_archive_size_exceeded"

-- _check_payload_limits
unfoldable pub check_payload_limits : BundleLimits → ℕ → ℕ → BundleResult (Unit {0})
check_payload_limits l count size = do
  refuse_if (ltb l.bundle_max_member_count count) "bundle_member_limit_exceeded"
  refuse_if (ltb l.bundle_max_extracted_bytes size) "bundle_extracted_size_exceeded"

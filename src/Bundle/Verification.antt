-- ===== src/Bundle/Verification.antt =====
-- _verify_bundle, from the archive on disk to the result.
use harbor_transfer_portal.Base.{
  Bool, List, Option, [], err, if◌then◌else◌, ltb, none, not, ok, refuse_if, some, ℕ, ◌>>=◌, ◌>>◌,
  ◌∷◌,
}
use harbor_transfer_portal.Bundle.Checksums.{checksum_line, parse_checksums}
use harbor_transfer_portal.Bundle.Inspection.{ArchiveInspection, inspect_archive, read_small_member}
use harbor_transfer_portal.Bundle.Layout.{
  validate_payload_layout, verify_descriptor_metadata, verify_payload_checksums,
}
use harbor_transfer_portal.Bundle.Limits.{BundleLimits, BundleResult, check_archive_size}
use harbor_transfer_portal.Bundle.Manifest.{
  BundleManifest, JsonFields, Libraries, model_validate, parse_canonical_manifest,
  require_supported_major, verify_signature, object,
}
use harbor_transfer_portal.Bundle.Members.{Bytes, TarInfo, is_dir, member_name}
use harbor_transfer_portal.Bundle.Text.{Text, codes, same_text}

-- An archive on disk: its members, if tarfile can read it to its end.
pub record ArchiveFile : Type 0 where
  pub is_regular : Bool
  pub size : ℕ
  pub name : Text
  pub bytes : Bytes
  pub members : Option (List TarInfo)

-- A sidecar on disk: its text, if it is UTF-8.
pub record SidecarFile : Type 0 where
  pub is_regular : Bool
  pub size : ℕ
  pub text : Option Text

-- The directory to extract to: whether it lies under the configured root, and whether it is there.
pub record ExtractTarget : Type 0 where
  pub under_root : Bool
  pub exists : Bool

abbrev pub check_sidecar_text : Text → Option Text → BundleResult (Unit {0})
check_sidecar_text expected none = err "bundle_sidecar_invalid"
check_sidecar_text expected (some found) =
    refuse_if (not (same_text found expected)) "bundle_sidecar_checksum_mismatch"

-- _verify_sidecar
unfoldable pub verify_sidecar : BundleLimits → SidecarFile → Text → Text → BundleResult (Unit {0})
verify_sidecar l sidecar archive_name actual_sha = do
  refuse_if (not sidecar.is_regular) "bundle_sidecar_invalid"
  refuse_if (ltb l.bundle_max_metadata_bytes sidecar.size) "bundle_sidecar_invalid"
  check_sidecar_text (checksum_line archive_name actual_sha) sidecar.text

abbrev pub verify_optional_sidecar :
    BundleLimits → Option SidecarFile → Text → Text → BundleResult (Unit {0})
verify_optional_sidecar l none archive_name actual_sha = ok tt
verify_optional_sidecar l (some sidecar) archive_name actual_sha =
    verify_sidecar l sidecar archive_name actual_sha

-- The files that are written, by their names below the target.
abbrev extracted_files : List TarInfo → List (Text × Bytes)
extracted_files [] = []
extracted_files (m ∷ ms) =
    let rest = extracted_files ms in if is_dir m then rest else (member_name m, m.content) ∷ rest

-- _extract_verified_members
unfoldable pub extract_verified_members :
    List TarInfo → Option ExtractTarget → BundleResult (List (Text × Bytes))
extract_verified_members members none = ok []
extract_verified_members members (some place) = do
  refuse_if (not place.under_root) "bundle_extract_path_outside_root"
  refuse_if place.exists "bundle_extract_destination_exists"
  ok (extracted_files members)

abbrev pub check_schema : Libraries → JsonFields → BundleResult (Unit {0})
check_schema lib fields =
    refuse_if (not (lib.is_schema_valid (object fields))) "bundle_schema_invalid"

-- The manifest of the archive, and the fingerprint of the key that signed it.
pub record SignedManifest : Type 0 where
  pub manifest : BundleManifest
  pub signing_key_fingerprint : Text

-- The checks on the manifest and its signature.
unfoldable pub read_manifest : Libraries → Bytes → Bytes → List Bytes → BundleResult SignedManifest
read_manifest lib manifest_bytes signature trusted_keys = do
  payload ← parse_canonical_manifest lib manifest_bytes
  require_supported_major payload
  check_schema lib payload
  fingerprint ← verify_signature lib manifest_bytes signature trusted_keys
  manifest ← model_validate lib (object payload)
  ok (record { manifest = manifest; signing_key_fingerprint = fingerprint })

-- The checks on the payload.
unfoldable pub check_payload :
    Libraries → BundleLimits → BundleManifest → ArchiveInspection → Bytes → BundleResult (Unit {0})
check_payload lib l manifest inspection checksums_bytes = do
  checksums ← parse_checksums l (lib.decode checksums_bytes)
  validate_payload_layout manifest inspection checksums
  verify_payload_checksums lib inspection checksums
  verify_descriptor_metadata lib manifest checksums inspection

pub record BundleVerificationResult : Type 0 where
  pub manifest : BundleManifest
  pub archive_sha256 : Text
  pub archive_size : ℕ
  pub signing_key_fingerprint : Text
  pub extracted : List (Text × Bytes)

-- What is done with the open archive.
unfoldable pub verify_members :
    Libraries
    → BundleLimits
    → List Bytes
    → Option ExtractTarget
    → ArchiveFile
    → Option (List TarInfo)
    → BundleResult BundleVerificationResult
verify_members lib l trusted_keys extract_to archive none = err "bundle_archive_invalid"
verify_members lib l trusted_keys extract_to archive (some members) = do
  inspection ← inspect_archive lib l members archive.size
  manifest_bytes ← read_small_member l (codes "manifest.json") inspection
  signature ← read_small_member l (codes "manifest.sig") inspection
  checksums_bytes ← read_small_member l (codes "checksums.sha256") inspection
  signed ← read_manifest lib manifest_bytes signature trusted_keys
  check_payload lib l signed.manifest inspection checksums_bytes
  extracted ← extract_verified_members inspection.members extract_to
  ok (record {
    manifest = signed.manifest;
    archive_sha256 = lib.sha256 archive.bytes;
    archive_size = archive.size;
    signing_key_fingerprint = signed.signing_key_fingerprint;
    extracted = extracted;
  })

-- _verify_bundle
unfoldable pub verify_bundle :
    Libraries
    → BundleLimits
    → List Bytes
    → Option SidecarFile
    → Option ExtractTarget
    → ArchiveFile
    → BundleResult BundleVerificationResult
verify_bundle lib l trusted_keys sidecar extract_to archive = do
  refuse_if (not archive.is_regular) "bundle_not_found"
  check_archive_size l archive.size
  verify_optional_sidecar l sidecar archive.name (lib.sha256 archive.bytes)
  verify_members lib l trusted_keys extract_to archive archive.members

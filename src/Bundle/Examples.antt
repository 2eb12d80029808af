-- ===== src/Bundle/Examples.antt =====
-- A small bundle with stand-ins for the libraries, and the theorems about it.
use harbor_transfer_portal.Base.{err, false, ◌++◌}
use harbor_transfer_portal.Bundle.Accepts.{verify_bundle-IsAuthentic}
use harbor_transfer_portal.Bundle.Authentic.{IsAuthentic}
use harbor_transfer_portal.Bundle.RoundTrip.{IsListing, parse_checksums-serialize_checksums}
use harbor_transfer_portal.Bundle.Manifest.{
  text, object, field, end, BundleManifest, Json, Libraries, container_image, drop_nulls,
  is_relative_payload_path, model_validate, parse_canonical_manifest, require_supported_major,
  verify_signature,
}
use harbor_transfer_portal.Base.{
  List, String, [], length, ltb, none, ok, refl, some, suc, true, zero, ℕ, ◌*◌, ◌+◌, ◌↔◌, ◌∷◌, ◌≡◌,
  ◌%◌,
}
use harbor_transfer_portal.Bundle.Accepted.{validate_archive_members-iff-IsSafeArchive}
use harbor_transfer_portal.Bundle.Checksums.{
  checksum_line, is_boundary, is_reserved, is_sha256, parse_checksums, parse_line, parse_lines,
  serialize_checksums,
}
use harbor_transfer_portal.Bundle.Inspection.{
  belongs_to, inspect_archive, inspect_members, payload_stats, read_small_member,
}
use harbor_transfer_portal.Bundle.Layout.{
  combine, cover, paths_overlap, validate_payload_layout, verify_descriptor_metadata,
  verify_descriptors, verify_payload_checksums,
}
use harbor_transfer_portal.Bundle.Limits.{BundleLimits, check_archive_size, is_unsafe_name}
use harbor_transfer_portal.Bundle.Members.{
  Bytes, TarInfo, admit_all, canonical_member_name, directory, is_canonical, is_unsafe, regular,
  validate_archive_members,
}
use harbor_transfer_portal.Bundle.Safety.{IsSafeArchive}
use harbor_transfer_portal.Bundle.Text.{Text, codes, starts_with}
use harbor_transfer_portal.Bundle.Verification.{
  ArchiveFile, BundleVerificationResult, check_payload, extract_verified_members, read_manifest,
  verify_bundle, verify_members,
}

-- A digest of the right form, from the length of the bytes.
abbrev digits : ℕ → Text
digits zero = []
digits (suc n) = 97 ∷ digits n

abbrev digest_of : Bytes → Text
digest_of b = (48 + length b % 10) ∷ digits 63

abbrev blob : TarInfo
blob = record { name = codes "images/app/blob"; kind = regular; size = 3; content = 1 ∷ 2 ∷ 3 ∷ [] }

abbrev checksums_file : Text
checksums_file = checksum_line (codes "images/app/blob") (digest_of (1 ∷ 2 ∷ 3 ∷ []))

abbrev app_manifest : BundleManifest
app_manifest = record {
  schema_version = codes "1.0";
  delivery_id = codes "DELIVERY-20250101-ABC123";
  created_by = codes "admin";
  artifacts =
      record {
        kind = container_image (codes "v1");
        source_digest = none;
        repository = codes "library/app";
        payload_path = codes "images/app";
        payload_sha256 = digest_of checksums_file;
        payload_size = 3;
      }
      ∷ [];
}

-- The JSON is one field that holds the bytes, and a key signs what begins with it.
abbrev text_of : Json → Bytes
text_of (object (field key (text t) rest)) = t
text_of _ = []

abbrev stand_ins : Libraries
stand_ins = record {
  sha256 = digest_of;
  verifies = λ k signature message. starts_with signature k;
  fingerprint = digest_of;
  decode = λ b. some b;
  encode = λ t. t;
  loads = λ b. some (object (field (codes "schema_version") (text b) end));
  dumps = text_of;
  is_schema_valid = λ j. true;
  coerce_manifest = λ j. some app_manifest;
  ratio_exceeds = λ total archive_size. ltb (200 * archive_size) total;
}

abbrev limits : BundleLimits
limits = record {
  bundle_max_archive_bytes = 1000;
  bundle_max_extracted_bytes = 1000;
  bundle_max_member_count = 10;
  bundle_max_path_bytes = 64;
  bundle_max_metadata_bytes = 500;
}

abbrev signing_key : Bytes
signing_key = 7 ∷ 7 ∷ []

abbrev member_of : String → Bytes → TarInfo
member_of name content = record {
  name = codes name;
  kind = regular;
  size = length content;
  content = content;
}

abbrev folder : String → TarInfo
folder name = record { name = codes name; kind = directory; size = 0; content = [] }

abbrev app_members : List TarInfo
app_members =
    folder "images/"
    ∷ folder "images/app/"
    ∷ blob
    ∷ member_of "checksums.sha256" checksums_file
    ∷ member_of "manifest.json" (codes "1.0")
    ∷ member_of "manifest.sig" (7 ∷ (7 ∷ digits 62))
    ∷ []

app_archive : ArchiveFile
app_archive = record {
  is_regular = true;
  size = 400;
  name = codes "app.htp.tar.gz";
  bytes = 9 ∷ [];
  members = some app_members;
}

app_members-accepted : validate_archive_members app_members ≡ ok tt
unfolding validate_archive_members admit_all canonical_member_name is_unsafe is_canonical
app_members-accepted = refl

validate_archive_members-iff-IsSafeArchive_example :
    (validate_archive_members app_members ≡ ok tt) ↔ IsSafeArchive app_members
validate_archive_members-iff-IsSafeArchive_example =
    validate_archive_members-iff-IsSafeArchive app_members

verified_bundle :
    (r : BundleVerificationResult) × (verify_bundle stand_ins limits
        (signing_key ∷ [])
        none
        none
        app_archive
      ≡ ok r)
unfolding verify_bundle verify_members app_archive inspect_archive inspect_members read_small_member
    read_manifest check_payload extract_verified_members validate_archive_members admit_all
    canonical_member_name is_unsafe is_canonical is_unsafe_name check_archive_size
    parse_canonical_manifest require_supported_major verify_signature model_validate parse_checksums
    validate_payload_layout verify_payload_checksums verify_descriptor_metadata combine
    verify_descriptors payload_stats belongs_to cover paths_overlap parse_lines parse_line
    is_boundary is_sha256 is_reserved serialize_checksums drop_nulls is_relative_payload_path
verified_bundle = (_, refl)

verify_bundle-IsAuthentic_example :
    (members : List TarInfo) × (app_archive.members ≡ some members)
    × IsSafeArchive members
    × IsAuthentic stand_ins limits
        (signing_key ∷ [])
        members
        verified_bundle.0.manifest
        verified_bundle.0.signing_key_fingerprint
verify_bundle-IsAuthentic_example =
    verify_bundle-IsAuthentic stand_ins limits (signing_key ∷ []) none none app_archive
      verified_bundle.0 verified_bundle.1

blob-IsListing : IsListing limits [] ((codes "images/app/blob", digest_of (1 ∷ [])) ∷ [])
unfolding is_boundary is_sha256 is_unsafe_name is_reserved
blob-IsListing =
    (record { digest_ok = refl; path_safe = refl; path_new = refl; path_plain = refl }, tt)

parse_checksums-serialize_checksums_example :
    parse_checksums limits
      (some (serialize_checksums ((codes "images/app/blob", digest_of (1 ∷ [])) ∷ [])))
    ≡ ok ((codes "images/app/blob", digest_of (1 ∷ [])) ∷ [])
parse_checksums-serialize_checksums_example =
    parse_checksums-serialize_checksums limits (codes "images/app/blob") (digest_of (1 ∷ [])) []
      blob-IsListing

-- A name with a line separator (U+2028) is safe, but its line is not read back.
abbrev separated : Text
separated = codes "images/a" ++ 8232 ∷ codes "b"

separated-safe : is_unsafe_name limits separated ≡ false
unfolding is_unsafe_name
separated-safe = refl

separated-lost :
    parse_checksums limits (some (serialize_checksums ((separated, digest_of []) ∷ [])))
    ≡ err "bundle_checksums_invalid"
unfolding parse_checksums serialize_checksums parse_lines parse_line is_boundary is_sha256
    is_unsafe_name is_reserved
separated-lost = refl

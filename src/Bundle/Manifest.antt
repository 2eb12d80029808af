-- ===== src/Bundle/Manifest.antt =====
-- The manifest: its JSON, and the models of backend/app/domain/bundle.py as far as a bundle is
-- checked by them.
use harbor_transfer_portal.Base.{
  Bool, List, Option, [], all, err, false, if◌then◌else◌, length, none, not, ok, refuse_if, some,
  true, ℕ, ◌&&◌, ◌==◌, ◌>>◌, ◌||◌, ◌∷◌,
}
use harbor_transfer_portal.Bundle.Checksums.{is_sha256}
use harbor_transfer_portal.Bundle.Limits.{BundleResult}
use harbor_transfer_portal.Bundle.Members.{Bytes}
use harbor_transfer_portal.Bundle.Text.{
  Text, among, codes, has, is_absolute, is_empty, parts, posix_path, same_text, starts_with,
}

mutual
  pub data Json : Type 0 where
    null : Json
    boolean : Bool → Json
    numeral : Text → Json
    text : Text → Json
    array : JsonList → Json
    object : JsonFields → Json

  pub data JsonList : Type 0 where
    nil : JsonList
    item : Json → JsonList → JsonList

  pub data JsonFields : Type 0 where
    end : JsonFields
    field : Text → Json → JsonFields → JsonFields

abbrev pub is_null : Json → Bool
is_null null = true
is_null _ = false

-- _drop_nulls
unfoldable mutual
  pub drop_nulls : Json → Json
  drop_nulls null = null
  drop_nulls (boolean b) = boolean b
  drop_nulls (numeral n) = numeral n
  drop_nulls (text t) = text t
  drop_nulls (array js) = array (drop_nulls_items js)
  drop_nulls (object fs) = object (drop_null_fields fs)

  pub drop_nulls_items : JsonList → JsonList
  drop_nulls_items nil = nil
  drop_nulls_items (item j js) = item (drop_nulls j) (drop_nulls_items js)

  pub drop_null_fields : JsonFields → JsonFields
  drop_null_fields end = end
  drop_null_fields (field key j fs) =
      let rest = drop_null_fields fs in if is_null j then rest else field key (drop_nulls j) rest

abbrev pub get_field : Text → JsonFields → Option Json
get_field key end = none
get_field key (field k j fs) = if same_text k key then some j else get_field key fs

-- The fields of ContainerImageArtifact and of HelmChartArtifact that the other has not.
pub data DescriptorKind : Type 0 where
  container_image : (reference : Text) → DescriptorKind
  helm_chart : (name version : Text) → DescriptorKind

-- ContainerImageArtifact and HelmChartArtifact, with the fields that they share.
pub record ArtifactDescriptor : Type 0 where
  pub kind : DescriptorKind
  pub repository : Text
  pub source_digest : Option Text
  pub payload_path : Text
  pub payload_sha256 : Text
  pub payload_size : ℕ

pub record BundleManifest : Type 0 where
  pub schema_version : Text
  pub delivery_id : Text
  pub created_by : Text
  pub artifacts : List ArtifactDescriptor

-- validate_relative_payload_path
unfoldable pub is_relative_payload_path : Text → Bool
is_relative_payload_path value = not (
    is_absolute (posix_path value)
    || is_empty value
    || among (codes "..") (parts (posix_path value))
    || among (codes ".") (parts (posix_path value))
    || has 92 value
    || has 0 value)

-- What the code relies on that is not its own: SHA-256, Ed25519, UTF-8, JSON, JSON Schema, the
-- coercion and the other field constraints of pydantic, and the division of floats behind the compression ratio.
pub record Libraries : Type 0 where
  pub sha256 : Bytes → Text
  pub verifies : Bytes → Bytes → Bytes → Bool
  pub fingerprint : Bytes → Text
  pub decode : Bytes → Option Text
  pub encode : Text → Bytes
  pub loads : Bytes → Option Json
  pub dumps : Json → Bytes
  pub is_schema_valid : Json → Bool
  pub coerce_manifest : Json → Option BundleManifest
  pub ratio_exceeds : ℕ → ℕ → Bool

abbrev is_valid_artifact : ArtifactDescriptor → Bool
is_valid_artifact a = is_relative_payload_path a.payload_path && is_sha256 a.payload_sha256

-- The validators of the models.
abbrev pub is_valid_manifest : BundleManifest → Bool
is_valid_manifest m = not (is_empty m.artifacts) && all is_valid_artifact m.artifacts

abbrev pub checked_manifest : Option BundleManifest → BundleResult BundleManifest
checked_manifest none = err "bundle_manifest_invalid"
checked_manifest (some m) = do refuse_if (not (is_valid_manifest m)) "bundle_manifest_invalid"; ok m

-- BundleManifest.model_validate
unfoldable pub model_validate : Libraries → Json → BundleResult BundleManifest
model_validate lib payload = checked_manifest (lib.coerce_manifest payload)

abbrev pub same_bytes : Bytes → Bytes → Bool
same_bytes a b = same_text a b

abbrev pub parsed_manifest : Libraries → Bytes → Option Json → BundleResult JsonFields
parsed_manifest lib manifest_bytes (some (object fields)) = do
  refuse_if (not (same_bytes manifest_bytes (lib.dumps (drop_nulls (object fields)))))
      "bundle_manifest_not_canonical"
  ok fields
parsed_manifest lib manifest_bytes _ = err "bundle_manifest_invalid"

-- _parse_canonical_manifest
unfoldable pub parse_canonical_manifest : Libraries → Bytes → BundleResult JsonFields
parse_canonical_manifest lib manifest_bytes =
    parsed_manifest lib manifest_bytes (lib.loads manifest_bytes)

abbrev is_version_one : Option Json → Bool
is_version_one (some (text version)) = starts_with version (codes "1.")
is_version_one _ = false

-- _require_supported_major
unfoldable pub require_supported_major : JsonFields → BundleResult (Unit {0})
require_supported_major fields =
    refuse_if (not (is_version_one (get_field (codes "schema_version") fields)))
      "bundle_schema_unsupported"

abbrev pub signed_by : Libraries → Bytes → Bytes → List Bytes → BundleResult Text
signed_by lib manifest_bytes signature [] = err "bundle_signature_untrusted"
signed_by lib manifest_bytes signature (key ∷ keys) =
    if lib.verifies key signature manifest_bytes
    then ok (lib.fingerprint key)
    else signed_by lib manifest_bytes signature keys

-- _verify_signature
unfoldable pub verify_signature : Libraries → Bytes → Bytes → List Bytes → BundleResult Text
verify_signature lib manifest_bytes signature trusted_keys = do
  refuse_if (not (length signature == 64)) "bundle_signature_invalid"
  signed_by lib manifest_bytes signature trusted_keys

-- ===== src/Policy/Fields.antt =====
-- The fields of the transfer policy, their bounds and their values.
use harbor_transfer_portal.Base.{
  ==_iff, Bool, List, Option, String, [], ap, false, if◌then◌else◌, leb, none, refl, some, sym,
  true, ℕ, ◌&&◌, ◌==◌, ◌↔◌, ◌∙◌, ◌∷◌, ◌≡◌,
}

-- POLICY_FIELDS
pub data PolicyField : Type 0 where
  import_allow_overwrite import_max_upload_bytes bundle_max_archive_bytes bundle_max_extracted_bytes
        bundle_max_member_count operation_disk_reserve_bytes operation_max_concurrent
        export_bundle_retention_seconds import_bundle_retention_seconds
        storage_cleanup_interval_seconds :
      PolicyField

abbrev pub policy_fields : List PolicyField
policy_fields =
    import_allow_overwrite ∷ import_max_upload_bytes ∷ bundle_max_archive_bytes
    ∷ bundle_max_extracted_bytes ∷ bundle_max_member_count ∷ operation_disk_reserve_bytes
    ∷ operation_max_concurrent ∷ export_bundle_retention_seconds ∷ import_bundle_retention_seconds
    ∷ storage_cleanup_interval_seconds ∷ []

-- The same fields, sorted by name.
abbrev pub sorted_fields : List PolicyField
sorted_fields =
    bundle_max_archive_bytes ∷ bundle_max_extracted_bytes ∷ bundle_max_member_count
    ∷ export_bundle_retention_seconds ∷ import_allow_overwrite ∷ import_bundle_retention_seconds
    ∷ import_max_upload_bytes ∷ operation_disk_reserve_bytes ∷ operation_max_concurrent
    ∷ storage_cleanup_interval_seconds ∷ []

abbrev pub field_name : PolicyField → String
field_name import_allow_overwrite = "import_allow_overwrite"
field_name import_max_upload_bytes = "import_max_upload_bytes"
field_name bundle_max_archive_bytes = "bundle_max_archive_bytes"
field_name bundle_max_extracted_bytes = "bundle_max_extracted_bytes"
field_name bundle_max_member_count = "bundle_max_member_count"
field_name operation_disk_reserve_bytes = "operation_disk_reserve_bytes"
field_name operation_max_concurrent = "operation_max_concurrent"
field_name export_bundle_retention_seconds = "export_bundle_retention_seconds"
field_name import_bundle_retention_seconds = "import_bundle_retention_seconds"
field_name storage_cleanup_interval_seconds = "storage_cleanup_interval_seconds"

abbrev pub position : PolicyField → ℕ
position import_allow_overwrite = 0
position import_max_upload_bytes = 1
position bundle_max_archive_bytes = 2
position bundle_max_extracted_bytes = 3
position bundle_max_member_count = 4
position operation_disk_reserve_bytes = 5
position operation_max_concurrent = 6
position export_bundle_retention_seconds = 7
position import_bundle_retention_seconds = 8
position storage_cleanup_interval_seconds = 9

abbrev pub same_field : PolicyField → PolicyField → Bool
same_field f g = position f == position g

abbrev at_position : ℕ → PolicyField
at_position n =
    if n == 0
    then import_allow_overwrite
    else if n == 1
    then import_max_upload_bytes
    else if n == 2
    then bundle_max_archive_bytes
    else if n == 3
    then bundle_max_extracted_bytes
    else if n == 4
    then bundle_max_member_count
    else if n == 5
    then operation_disk_reserve_bytes
    else if n == 6
    then operation_max_concurrent
    else if n == 7
    then export_bundle_retention_seconds
    else if n == 8
    then import_bundle_retention_seconds
    else storage_cleanup_interval_seconds

at_position-position : (f : PolicyField) → at_position (position f) ≡ f
at_position-position import_allow_overwrite = refl
at_position-position import_max_upload_bytes = refl
at_position-position bundle_max_archive_bytes = refl
at_position-position bundle_max_extracted_bytes = refl
at_position-position bundle_max_member_count = refl
at_position-position operation_disk_reserve_bytes = refl
at_position-position operation_max_concurrent = refl
at_position-position export_bundle_retention_seconds = refl
at_position-position import_bundle_retention_seconds = refl
at_position-position storage_cleanup_interval_seconds = refl

pub same_field_iff : (f g : PolicyField) → (same_field f g ≡ true) ↔ (f ≡ g)
same_field_iff f g = (
  λ h.
      sym (at_position-position f)
      ∙ ap at_position ((==_iff (position f) (position g)).0 h)
      ∙ at_position-position g,
  λ e. (==_iff (position f) (position g)).1 (ap position e),
)

-- A Python int.
pub data Integer : Type 0 where
  negative : ℕ → Integer
  nonnegative : ℕ → Integer

-- int | bool
pub data PolicyValue : Type 0 where
  flag : Bool → PolicyValue
  number : Integer → PolicyValue

abbrev pub same_integer : Integer → Integer → Bool
same_integer (negative m) (negative n) = m == n
same_integer (nonnegative m) (nonnegative n) = m == n
same_integer _ _ = false

-- int(value) of a value that has passed its bounds
abbrev pub int_value : PolicyValue → ℕ
int_value (flag true) = 1
int_value (flag false) = 0
int_value (number (negative n)) = 0
int_value (number (nonnegative n)) = n

abbrev int_of_flag : Bool → Integer
int_of_flag true = nonnegative 1
int_of_flag false = nonnegative 0

-- `==` of Python, for which True is 1 and False is 0
abbrev pub as_integer : PolicyValue → Integer
as_integer (flag b) = int_of_flag b
as_integer (number n) = n

abbrev pub same_value : PolicyValue → PolicyValue → Bool
same_value v w = same_integer (as_integer v) (as_integer w)

-- _BOUNDS
unfoldable pub bounds : PolicyField → Option (ℕ × ℕ)
bounds import_allow_overwrite = none
bounds import_max_upload_bytes = some (1048576, 1099511627776)
bounds bundle_max_archive_bytes = some (1048576, 1099511627776)
bounds bundle_max_extracted_bytes = some (1048576, 2199023255552)
bounds bundle_max_member_count = some (4, 1000000)
bounds operation_disk_reserve_bytes = some (0, 1099511627776)
bounds operation_max_concurrent = some (1, 32)
bounds export_bundle_retention_seconds = some (3600, 31536000)
bounds import_bundle_retention_seconds = some (3600, 31536000)
bounds storage_cleanup_interval_seconds = some (60, 86400)

abbrev pub within : PolicyValue → Option (ℕ × ℕ) → Bool
within v none = true
within (number (nonnegative n)) (some (minimum, maximum)) = leb minimum n && leb n maximum
within _ (some _) = false

-- ===== src/Policy/Examples.antt =====
-- A policy with the defaults of the backend, and one update of it.
use harbor_transfer_portal.Base.{List, ap, some, sym, ◌∷◌}
use harbor_transfer_portal.Policy.Fields.{Integer, PolicyField, PolicyValue}
use harbor_transfer_portal.Policy.RoundTrip.{is_flag}
use harbor_transfer_portal.Policy.Transfer.{TransferPolicyChange, candidate, given, update}
use harbor_transfer_portal.Policy.Unary.{parse_unary, parse_unary-print_unary, print_unary}
use harbor_transfer_portal.Policy.Updates.{update-reads_back}
use harbor_transfer_portal.Base.{String, [], false, ok, refl, ◌≡◌}
use harbor_transfer_portal.Policy.Fields.{bounds}
use harbor_transfer_portal.Policy.Limits.{IsLimited, startup-IsLimited}
use harbor_transfer_portal.Policy.Transfer.{
  Policy, Values, apply_persisted_at_startup, configured_values, validate,
}
use harbor_transfer_portal.Policy.Fields.{
  import_allow_overwrite, import_max_upload_bytes, bundle_max_archive_bytes,
  bundle_max_extracted_bytes, bundle_max_member_count, operation_disk_reserve_bytes,
  operation_max_concurrent, export_bundle_retention_seconds, import_bundle_retention_seconds,
  storage_cleanup_interval_seconds, flag, number, nonnegative,
}

abbrev defaults : Values
defaults import_allow_overwrite = flag false
defaults import_max_upload_bytes = number (nonnegative 1073741824)
defaults bundle_max_archive_bytes = number (nonnegative 1073741824)
defaults bundle_max_extracted_bytes = number (nonnegative 2147483648)
defaults bundle_max_member_count = number (nonnegative 10000)
defaults operation_disk_reserve_bytes = number (nonnegative 0)
defaults operation_max_concurrent = number (nonnegative 1)
defaults export_bundle_retention_seconds = number (nonnegative 86400)
defaults import_bundle_retention_seconds = number (nonnegative 86400)
defaults storage_cleanup_interval_seconds = number (nonnegative 3600)

defaults_only : Policy
defaults_only = record {
  settings = defaults;
  metadata = [];
  parse_int = parse_unary;
  print_int = print_unary;
}

started : (p' : Policy) × (apply_persisted_at_startup defaults_only ≡ ok p')
unfolding apply_persisted_at_startup configured_values validate bounds defaults_only
started = (_, refl)

startup-IsLimited_example : IsLimited started.0.settings
startup-IsLimited_example = startup-IsLimited defaults_only started.0 started.1

abbrev two_at_once : List (String × PolicyValue)
two_at_once = ("operation_max_concurrent", number (nonnegative 2)) ∷ []

two_at_once-typed :
    (f : PolicyField) (v : PolicyValue)
    → given f two_at_once ≡ some v
    → is_flag v ≡ is_flag (defaults_only.settings f)
unfolding defaults_only
two_at_once-typed import_allow_overwrite v e = cc
two_at_once-typed import_max_upload_bytes v e = cc
two_at_once-typed bundle_max_archive_bytes v e = cc
two_at_once-typed bundle_max_extracted_bytes v e = cc
two_at_once-typed bundle_max_member_count v e = cc
two_at_once-typed operation_disk_reserve_bytes v e = cc
two_at_once-typed operation_max_concurrent v e =
    (let same : number (nonnegative 2) ≡ v = cc e in ap is_flag (sym same))
two_at_once-typed export_bundle_retention_seconds v e = cc
two_at_once-typed import_bundle_retention_seconds v e = cc
two_at_once-typed storage_cleanup_interval_seconds v e = cc

current :
    (v : Values) × (configured_values defaults_only ≡ ok v)
    × (validate (candidate v two_at_once) ≡ ok tt)
unfolding configured_values validate bounds defaults_only
current = (_, refl, refl)

prints : (n : Integer) → defaults_only.parse_int (defaults_only.print_int n) ≡ some n
unfolding defaults_only
prints = parse_unary-print_unary

update-reads_back_example :
    (change : TransferPolicyChange) × (p' : Policy) × (update two_at_once defaults_only
      ≡ ok (change, p'))
    × (change.snapshot.values ≡ candidate current.0 two_at_once)
    × (configured_values p' ≡ ok (candidate current.0 two_at_once))
update-reads_back_example =
    update-reads_back defaults_only two_at_once current.0 prints two_at_once-typed refl current.1
      current.2

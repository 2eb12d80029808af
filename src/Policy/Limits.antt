-- ===== src/Policy/Limits.antt =====
-- The limits that hold of the policy once it has been applied.
use harbor_transfer_portal.Base.{
  Bool-cases, List, Result-cases, [], any, ap, arith, false, inl, inr, ltb, ok, refl, true, ◌∷◌,
  ◌≡◌, ◌≤◌,
}
use harbor_transfer_portal.Policy.Fields.{
  PolicyField, bounds, int_value, policy_fields, same_field, same_field_iff, within,
  import_max_upload_bytes, bundle_max_archive_bytes, bundle_max_extracted_bytes,
}
use harbor_transfer_portal.Policy.Transfer.{
  Policy, Values, apply_persisted_at_startup, configured_values, out_of_range, read_all,
  set_setting, set_settings, stored_values, validate,
}
use mathlib.Core.Path.{subst}
use harbor_transfer_portal.Policy.Fields.{
  import_allow_overwrite, import_max_upload_bytes, bundle_max_archive_bytes,
  bundle_max_extracted_bytes, bundle_max_member_count, operation_disk_reserve_bytes,
  operation_max_concurrent, export_bundle_retention_seconds, import_bundle_retention_seconds,
  storage_cleanup_interval_seconds,
}

-- Every number within its bounds, and each size no greater than the next.
pub record IsLimited (v : Values) : Type 0 where
  pub bounded : (f : PolicyField) → within (v f) (bounds f) ≡ true
  pub upload : int_value (v import_max_upload_bytes) ≤ int_value (v bundle_max_archive_bytes)
  pub archive : int_value (v bundle_max_archive_bytes) ≤ int_value (v bundle_max_extracted_bytes)

pub policy_fields-all : (f : PolicyField) → any (λ g. same_field g f) policy_fields ≡ true
policy_fields-all import_allow_overwrite = refl
policy_fields-all import_max_upload_bytes = refl
policy_fields-all bundle_max_archive_bytes = refl
policy_fields-all bundle_max_extracted_bytes = refl
policy_fields-all bundle_max_member_count = refl
policy_fields-all operation_disk_reserve_bytes = refl
policy_fields-all operation_max_concurrent = refl
policy_fields-all export_bundle_retention_seconds = refl
policy_fields-all import_bundle_retention_seconds = refl
policy_fields-all storage_cleanup_interval_seconds = refl

in_range-at :
    (v : Values) (fs : List PolicyField) (f : PolicyField)
    → out_of_range v fs ≡ false
    → any (λ g. same_field g f) fs ≡ true
    → within (v f) (bounds f) ≡ true
in_range-at v [] f h m = cc
in_range-at v (g ∷ fs) f h m = elim (Bool-cases (same_field g f)) [
  | inl hit ↦ let same = (same_field_iff g f).0 hit in rw (← same) (ground arith)
  | inr miss ↦ in_range-at v fs f (ground arith) (rw miss at m)
]

pub validate-IsLimited : {u : Unit {0}} (v : Values) → validate v ≡ ok u → IsLimited v
unfolding validate
validate-IsLimited v e = elim (Bool-cases (out_of_range v policy_fields)) [
  | inl bad ↦ absurd (let x = rw bad at e in cc)
  | inr good ↦
      let e1 = rw good at e in
      elim (Bool-cases
        (ltb (int_value (v bundle_max_archive_bytes)) (int_value (v import_max_upload_bytes)))) [
          | inl bad ↦ absurd (let x = rw bad at e1 in cc)
          | inr upload_fits ↦
              let e2 = rw upload_fits at e1 in
              elim (Bool-cases (
                ltb (int_value (v bundle_max_extracted_bytes))
                  (int_value (v bundle_max_archive_bytes)))) [
                    | inl bad ↦ absurd (let x = rw bad at e2 in cc)
                    | inr archive_fits ↦ record {
                      bounded = λ f. in_range-at v policy_fields f good (policy_fields-all f);
                      upload = ground arith;
                      archive = ground arith;
                    }
                  ]
        ]
]

set_settings-kept :
    (fs : List PolicyField) (v settings : Values) (f : PolicyField)
    → settings f ≡ v f
    → set_settings fs v settings f ≡ v f
set_settings-kept [] v settings f h = h
set_settings-kept (g ∷ fs) v settings f h =
    set_settings-kept fs v (set_setting g (v g) settings) f (elim (Bool-cases (same_field g f)) [
      | inl hit ↦ rw hit (ap v ((same_field_iff g f).0 hit))
      | inr miss ↦ rw miss h
    ])

set_settings-at :
    (fs : List PolicyField) (v settings : Values) (f : PolicyField)
    → any (λ g. same_field g f) fs ≡ true
    → set_settings fs v settings f ≡ v f
set_settings-at [] v settings f m = cc
set_settings-at (g ∷ fs) v settings f m = elim (Bool-cases (same_field g f)) [
  | inl hit ↦
      set_settings-kept fs v (set_setting g (v g) settings) f
        (rw hit (ap v ((same_field_iff g f).0 hit)))
  | inr miss ↦ set_settings-at fs v (set_setting g (v g) settings) f (rw miss at m)
]

IsLimited-pointwise : (v w : Values) → ((f : PolicyField) → w f ≡ v f) → IsLimited v → IsLimited w
IsLimited-pointwise v w e h = record {
  bounded = λ f. rw (e f) (h.bounded f);
  upload = rw (e import_max_upload_bytes, e bundle_max_archive_bytes) h.upload;
  archive = rw (e bundle_max_archive_bytes, e bundle_max_extracted_bytes) h.archive;
}

pub configured_values-stored :
    (p : Policy) (v : Values)
    → configured_values p ≡ ok v
    → (read_all p policy_fields ≡ ok tt)
      × (validate (stored_values p) ≡ ok tt)
      × (stored_values p ≡ v)
unfolding configured_values
configured_values-stored p v e = elim (Result-cases (read_all p policy_fields)) [
  | inr (x, bad) ↦ absurd (let y = rw bad at e in cc)
  | inl (_, read) ↦
      let e1 = rw read at e in
      elim (Result-cases (validate (stored_values p))) [
        | inr (x, bad) ↦ absurd (let y = rw bad at e1 in cc)
        | inl (_, valid) ↦ (read, valid, let e2 = rw valid at e1 in cc e2)
      ]
]

-- Whatever rows were persisted and whatever the settings were, a start that does not raise leaves
-- settings in which every number is within its bounds, no upload may be larger than an archive, and
-- no archive larger than what may be extracted from one.
pub startup-IsLimited :
    (p p' : Policy) → apply_persisted_at_startup p ≡ ok p' → IsLimited p'.settings
unfolding apply_persisted_at_startup
startup-IsLimited p p' e = elim (Result-cases (configured_values p)) [
  | inr (x, bad) ↦ absurd (let y = rw bad at e in cc)
  | inl (v, configured) ↦
      let e1 = rw configured at e in
      elim (Result-cases (validate v)) [
        | inr (x, bad) ↦ absurd (let y = rw bad at e1 in cc)
        | inl (_, valid) ↦
            let q : record p { settings = set_settings policy_fields v p.settings } ≡ p' =
              (let e2 = rw valid at e1 in cc e2) in
            subst (λ (r : Policy). IsLimited r.settings) q
              (IsLimited-pointwise v (set_settings policy_fields v p.settings)
                (λ f. set_settings-at policy_fields v p.settings f (policy_fields-all f))
                (validate-IsLimited v valid))
      ]
]

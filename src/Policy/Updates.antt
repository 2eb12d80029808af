-- ===== src/Policy/Updates.antt =====
-- An update that is accepted is stored, and is what the policy then says.
use harbor_transfer_portal.Policy.Transfer.{change_of, snapshot_of}
use harbor_transfer_portal.Base.{
  Bool-cases, List, Option-cases, String, any, ap, arith, false, inl, inr, ok, refl, some, sym, ◌∙◌,
  ◌≡◌,
}
use harbor_transfer_portal.Policy.Fields.{
  Integer, PolicyField, PolicyValue, policy_fields, sorted_fields,
}
use harbor_transfer_portal.Policy.Limits.{configured_values-stored, policy_fields-all}
use harbor_transfer_portal.Policy.RoundTrip.{
  all-read, any-changed_fields, get-store_fields, is_flag, read_all-at, read_value-is_flag,
  read_value-serialize, same_value-eq, sorted_fields-all,
}
use harbor_transfer_portal.Policy.Transfer.{
  Policy, TransferPolicyChange, Values, candidate, changed_fields, configured_values, get_value,
  given, is_changed, is_unknown, read_field, resolve, stored, stored_values, update, validate,
  value_or,
}
use mathlib.Core.Path.{fun_ext}

module _ (p : Policy) (values : List (String × PolicyValue)) (current : Values)
    (prints : (n : Integer) → p.parse_int (p.print_int n) ≡ some n)
    (typed : (f : PolicyField) (v : PolicyValue)
      → given f values ≡ some v
      → is_flag v ≡ is_flag (p.settings f))
    (read : (f : PolicyField) → read_field p f ≡ ok (current f)) where
  current-is_flag : (f : PolicyField) → is_flag (current f) ≡ is_flag (p.settings f)
  current-is_flag f =
      read_value-is_flag p.parse_int (p.settings f) (current f) (get_value f p.metadata) (read f)

  candidate-is_flag :
      (f : PolicyField) → is_flag (candidate current values f) ≡ is_flag (p.settings f)
  candidate-is_flag f = elim (Option-cases (given f values)) [
    | inl absent ↦ rw absent (current-is_flag f)
    | inr (v, present) ↦ rw present (typed f v present)
  ]

  unchanged-candidate :
      (f : PolicyField)
      → is_changed current values f ≡ false
      → candidate current values f ≡ current f
  unchanged-candidate f h = elim (Option-cases (given f values)) [
    | inl absent ↦ rw absent refl
    | inr (v, present) ↦
        let h1 = rw present at h in
        rw present
          (same_value-eq v (current f) (typed f v present ∙ sym (current-is_flag f)) (ground arith))
  ]

  -- Every field of what was stored reads as the candidate.
  read-stored :
      (f : PolicyField)
      → read_field
          (stored p (candidate current values) (changed_fields current values sorted_fields))
          f
        ≡ ok (candidate current values f)
  read-stored f =
      let v = candidate current values in
      let now =
        get-store_fields p.print_int v f (changed_fields current values sorted_fields) p.metadata in
      let touched = any-changed_fields current values f sorted_fields in
      elim (Bool-cases (is_changed current values f)) [
        | inl changed ↦
            rw (now, touched, sorted_fields-all f, changed)
              (read_value-serialize p.parse_int p.print_int (p.settings f) (v f) prints
                (candidate-is_flag f))
        | inr kept ↦
            rw (now, touched, sorted_fields-all f, kept)
              (read f ∙ ap ok (sym (unchanged-candidate f kept)))
      ]

configured_values-read :
    (p : Policy) (v : Values)
    → ((f : PolicyField) → read_field p f ≡ ok (v f))
    → validate v ≡ ok tt
    → configured_values p ≡ ok v
unfolding configured_values
configured_values-read p v h valid =
    let same : stored_values p ≡ v = fun_ext (λ f. ap (value_or (p.settings f)) (h f)) in
    rw (all-read p v policy_fields h, same, valid) refl

-- If ints are read as they are written, the current policy can be read, and the fields given are
-- known, of the kinds of the settings and, put over the current values, valid, then the update
-- succeeds: its snapshot and the stored policy are the current values with the given ones over them.
pub update-reads_back :
    (p : Policy) (values : List (String × PolicyValue)) (current : Values)
    → ((n : Integer) → p.parse_int (p.print_int n) ≡ some n)
    → ((f : PolicyField) (v : PolicyValue)
        → given f values ≡ some v
        → is_flag v ≡ is_flag (p.settings f))
    → any (λ e. is_unknown e.0) values ≡ false
    → configured_values p ≡ ok current
    → validate (candidate current values) ≡ ok tt
    → (change : TransferPolicyChange) × (p' : Policy) × (update values p ≡ ok (change, p'))
      × (change.snapshot.values ≡ candidate current values)
      × (configured_values p' ≡ ok (candidate current values))
unfolding update resolve
update-reads_back p values current prints typed known configured valid =
    let (all_read, fine, same) = configured_values-stored p current configured in
    let read : (f : PolicyField) → read_field p f ≡ ok (current f) = λ f.
      read_all-at p policy_fields f all_read (policy_fields-all f)
      ∙ ap (λ (v : Values). ok (v f)) same in
    let after =
      configured_values-read
        (stored p (candidate current values) (changed_fields current values sorted_fields))
        (candidate current values) (read-stored p values current prints typed read) valid in
    let changed = changed_fields current values sorted_fields in
    (
      change_of current (candidate current values) changed
          (snapshot_of p.settings (candidate current values)),
      stored p (candidate current values) changed,
      rw (known, configured, valid, after) refl,
      refl,
      after,
    )

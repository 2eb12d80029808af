-- ===== src/Policy/RoundTrip.antt =====
-- What an update has stored is what is read back.
use harbor_transfer_portal.Base.{
  Bool, Bool-cases, List, Option, Option-cases, Result-cases, String, [], any, ap, arith, false,
  if◌then◌else◌, inl, inr, none, ok, refl, some, str_eq, sym, true, ◌&&◌, ◌∙◌, ◌∷◌, ◌≡◌,
}
use harbor_transfer_portal.Policy.Fields.{
  Integer, PolicyField, PolicyValue, same_field, same_field_iff, same_integer, same_value,
  sorted_fields,
}
use harbor_transfer_portal.Policy.Transfer.{
  Policy, Values, changed_fields, get_value, is_changed, read_all, read_field, read_value,
  serialize, set_value, store_fields, stored_values,
}
use mathlib.Core.Path.{subst}
use harbor_transfer_portal.Policy.Fields.{
  import_allow_overwrite, import_max_upload_bytes, bundle_max_archive_bytes,
  bundle_max_extracted_bytes, bundle_max_member_count, operation_disk_reserve_bytes,
  operation_max_concurrent, export_bundle_retention_seconds, import_bundle_retention_seconds,
  storage_cleanup_interval_seconds, flag, number,
}

get-set_value :
    (f g : PolicyField) (raw : String) (rows : List (PolicyField × String))
    → get_value f (set_value g raw rows) ≡ (if same_field g f then some raw else get_value f rows)
get-set_value f g raw [] = refl
get-set_value f g raw ((k, old) ∷ rest) = elim (Bool-cases (same_field k g)) [
  | inl hit ↦
      let same = (same_field_iff k g).0 hit in
      rw hit (elim (Bool-cases (same_field g f)) [
        | inl found ↦ rw (same, found) refl
        | inr other ↦ rw (same, other) refl
      ])
  | inr miss ↦ rw miss (elim (Bool-cases (same_field k f)) [
    | inl found ↦
        let g_other : same_field g f ≡ false = ground (arith, found, miss) in
        rw (found, g_other) refl
    | inr past ↦ rw past (get-set_value f g raw rest)
  ])
]

pub get-store_fields :
    (print_int : Integer → String) (v : Values) (f : PolicyField) (fs : List PolicyField)
    (rows : List (PolicyField × String))
    → get_value f (store_fields print_int v fs rows) ≡ (
        if any (λ g. same_field g f) fs then some (serialize print_int (v f)) else get_value f rows)
get-store_fields print_int v f [] rows = refl
get-store_fields print_int v f (g ∷ fs) rows =
    let rest = get-store_fields print_int v f fs (set_value g (serialize print_int (v g)) rows) in
    rest ∙ elim (Bool-cases (any (λ k. same_field k f) fs)) [
      | inl later ↦ elim (Bool-cases (same_field g f)) [
        | inl hit ↦ rw (later, hit) refl
        | inr miss ↦ rw (later, miss) refl
      ]
      | inr last ↦
          rw (last, get-set_value f g (serialize print_int (v g)) rows)
            (elim (Bool-cases (same_field g f)) [
              | inl hit ↦
                  let same = (same_field_iff g f).0 hit in
                  rw hit (ap (λ k. some (serialize print_int (v k))) same)
              | inr miss ↦ rw miss refl
            ])
    ]

pub any-changed_fields :
    (current : Values) (values : List (String × PolicyValue)) (f : PolicyField)
    (fs : List PolicyField)
    → any (λ g. same_field g f) (changed_fields current values fs)
      ≡ (any (λ g. same_field g f) fs && is_changed current values f)
any-changed_fields current values f [] = refl
any-changed_fields current values f (g ∷ fs) =
    let rest = any-changed_fields current values f fs in
    elim (Bool-cases (same_field g f)) [
      | inl hit ↦
          let same = (same_field_iff g f).0 hit in
          elim (Bool-cases (is_changed current values f)) [
            | inl changed ↦
                let changed_g : is_changed current values g ≡ true =
                  subst (λ k. is_changed current values k ≡ true) (sym same) changed in
                rw (changed_g, hit, changed) refl
            | inr kept ↦
                let kept_g : is_changed current values g ≡ false =
                  subst (λ k. is_changed current values k ≡ false) (sym same) kept in
                rw (kept_g, hit, rest, kept) (ground arith)
          ]
      | inr miss ↦ elim (Bool-cases (is_changed current values g)) [
        | inl changed ↦ rw (changed, miss) rest
        | inr kept ↦ rw (kept, miss) rest
      ]
    ]

pub sorted_fields-all : (f : PolicyField) → any (λ g. same_field g f) sorted_fields ≡ true
sorted_fields-all import_allow_overwrite = refl
sorted_fields-all import_max_upload_bytes = refl
sorted_fields-all bundle_max_archive_bytes = refl
sorted_fields-all bundle_max_extracted_bytes = refl
sorted_fields-all bundle_max_member_count = refl
sorted_fields-all operation_disk_reserve_bytes = refl
sorted_fields-all operation_max_concurrent = refl
sorted_fields-all export_bundle_retention_seconds = refl
sorted_fields-all import_bundle_retention_seconds = refl
sorted_fields-all storage_cleanup_interval_seconds = refl

-- Only the switch is a bool.
abbrev pub is_flag : PolicyValue → Bool
is_flag (flag b) = true
is_flag (number n) = false

pub read_value-serialize :
    (parse_int : String → Option Integer) (print_int : Integer → String) (fallback v : PolicyValue)
    → ((n : Integer) → parse_int (print_int n) ≡ some n)
    → is_flag v ≡ is_flag fallback
    → read_value parse_int fallback (some (serialize print_int v)) ≡ ok v
unfolding serialize
read_value-serialize parse_int print_int (flag b) (flag true) h k = refl
read_value-serialize parse_int print_int (flag b) (flag false) h k = refl
read_value-serialize parse_int print_int (number m) (number n) h k = rw (h n) refl
read_value-serialize parse_int print_int (flag b) (number n) h k = cc
read_value-serialize parse_int print_int (number m) (flag b) h k = cc

same_integer-eq : (m n : Integer) → same_integer m n ≡ true → m ≡ n
same_integer-eq m n h = ground arith

pub same_value-eq : (v w : PolicyValue) → is_flag v ≡ is_flag w → same_value v w ≡ true → v ≡ w
same_value-eq (flag true) (flag true) k h = refl
same_value-eq (flag false) (flag false) k h = refl
same_value-eq (flag true) (flag false) k h = cc
same_value-eq (flag false) (flag true) k h = cc
same_value-eq (number m) (number n) k h = ap number (same_integer-eq m n h)
same_value-eq (flag b) (number n) k h = cc
same_value-eq (number m) (flag b) k h = cc

-- Reading gives a value of the kind of the setting.
pub read_value-is_flag :
    (parse_int : String → Option Integer) (fallback v : PolicyValue) (raw : Option String)
    → read_value parse_int fallback raw ≡ ok v
    → is_flag v ≡ is_flag fallback
read_value-is_flag parse_int fallback v none e =
    let same : fallback ≡ v = cc e in ap is_flag (sym same)
read_value-is_flag parse_int (flag b) v (some raw) e = elim (Bool-cases (str_eq raw "true")) [
  | inl on ↦ let e1 = rw on at e in let same : flag true ≡ v = cc e1 in ap is_flag (sym same)
  | inr no_ ↦
      let e1 = rw no_ at e in
      elim (Bool-cases (str_eq raw "false")) [
        | inl off ↦
            let e2 = rw off at e1 in let same : flag false ≡ v = cc e2 in ap is_flag (sym same)
        | inr bad ↦ absurd (let e2 = rw bad at e1 in cc)
      ]
]
read_value-is_flag parse_int (number m) v (some raw) e = elim (Option-cases (parse_int raw)) [
  | inl bad ↦ absurd (let e1 = rw bad at e in cc)
  | inr (n, good) ↦
      let e1 = rw good at e in let same : number n ≡ v = cc e1 in ap is_flag (sym same)
]

pub read_all-at :
    (p : Policy) (fs : List PolicyField) (f : PolicyField)
    → read_all p fs ≡ ok tt
    → any (λ g. same_field g f) fs ≡ true
    → read_field p f ≡ ok (stored_values p f)
read_all-at p [] f h m = cc
read_all-at p (g ∷ fs) f h m = elim (Result-cases (read_field p g)) [
  | inr (x, bad) ↦ absurd (let y = rw bad at h in cc)
  | inl (v, read) ↦
      let h1 = rw read at h in
      elim (Bool-cases (same_field g f)) [
        | inl hit ↦
            let same = (same_field_iff g f).0 hit in
            subst (λ k. read_field p k ≡ ok (stored_values p k)) same (rw read refl)
        | inr miss ↦ read_all-at p fs f h1 (rw miss at m)
      ]
]

pub all-read :
    (p : Policy) (v : Values) (fs : List PolicyField)
    → ((f : PolicyField) → read_field p f ≡ ok (v f))
    → read_all p fs ≡ ok tt
all-read p v [] h = refl
all-read p v (f ∷ fs) h = rw (h f) (all-read p v fs h)

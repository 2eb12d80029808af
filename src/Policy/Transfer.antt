-- ===== src/Policy/Transfer.antt =====
-- TransferPolicyService. A dict of the policy is a function of the field. The rows of the settings
-- table are the texts under `transfer.<field>`; `int()` and `str()` of an int are parameters.
use harbor_transfer_portal.Base.{
  Bool, List, Option, Result, String, [], any, err, false, if◌then◌else◌, is_some, ltb, map, none,
  not, ok, or_else, refuse_if, some, str_eq, true, ◌&&◌, ◌>>=◌, ◌>>◌, ◌∷◌,
}
use harbor_transfer_portal.Policy.Fields.{
  Integer, PolicyField, PolicyValue, bounds, field_name, flag, int_value, policy_fields, same_field,
  same_value, sorted_fields, within, number, bundle_max_archive_bytes, operation_max_concurrent,
  import_max_upload_bytes, bundle_max_extracted_bytes,
}

abbrev pub Values : Type 0
Values = PolicyField → PolicyValue

-- The settings of the process, the persisted rows, and how ints are read and written.
pub record Policy : Type 0 where
  pub settings : Values
  pub metadata : List (PolicyField × String)
  pub parse_int : String → Option Integer
  pub print_int : Integer → String

abbrev pub get_value : PolicyField → List (PolicyField × String) → Option String
get_value f [] = none
get_value f ((g, raw) ∷ rest) = if same_field g f then some raw else get_value f rest

abbrev pub set_value :
    PolicyField → String → List (PolicyField × String) → List (PolicyField × String)
set_value f raw [] = (f, raw) ∷ []
set_value f raw ((g, old) ∷ rest) =
    if same_field g f then (g, raw) ∷ rest else (g, old) ∷ set_value f raw rest

abbrev pub read_integer : Option Integer → Result String PolicyValue
read_integer none = err "transfer_policy_persisted_invalid"
read_integer (some n) = ok (number n)

abbrev pub read_value :
    (String → Option Integer) → PolicyValue → Option String → Result String PolicyValue
read_value parse_int fallback none = ok fallback
read_value parse_int (flag b) (some raw) =
    if str_eq raw "true"
    then ok (flag true)
    else if str_eq raw "false"
    then ok (flag false)
    else err "transfer_policy_persisted_invalid"
read_value parse_int (number n) (some raw) = read_integer (parse_int raw)

abbrev pub read_field : Policy → PolicyField → Result String PolicyValue
read_field p f = read_value p.parse_int (p.settings f) (get_value f p.metadata)

-- The fields in order; the first one that cannot be read raises.
abbrev pub read_all : Policy → List PolicyField → Result String (Unit {0})
read_all p [] = ok tt
read_all p (f ∷ fs) = do v ← read_field p f; read_all p fs

abbrev pub value_or : PolicyValue → Result String PolicyValue → PolicyValue
value_or v (ok w) = w
value_or v (err e) = v

abbrev pub out_of_range : Values → List PolicyField → Bool
out_of_range v fs = any (λ f. not (within (v f) (bounds f))) fs

-- _validate
unfoldable pub validate : Values → Result String (Unit {0})
validate v = do
  refuse_if (out_of_range v policy_fields) "transfer_policy_out_of_range"
  refuse_if (ltb (int_value (v bundle_max_archive_bytes)) (int_value (v import_max_upload_bytes)))
      "transfer_policy_inconsistent"
  refuse_if
      (ltb (int_value (v bundle_max_extracted_bytes)) (int_value (v bundle_max_archive_bytes)))
      "transfer_policy_inconsistent"

-- What the rows and the settings say, if all of it can be read.
abbrev pub stored_values : Policy → Values
stored_values p f = value_or (p.settings f) (read_field p f)

-- _configured_values
unfoldable pub configured_values : Policy → Result String Values
configured_values p = do read_all p policy_fields; validate (stored_values p); ok (stored_values p)

pub record TransferPolicySnapshot : Type 0 where
  pub values : Values
  pub effective_operation_max_concurrent : PolicyValue
  pub restart_required_fields : List PolicyField

abbrev pub snapshot_of : Values → Values → TransferPolicySnapshot
snapshot_of settings configured = record {
  values = configured;
  effective_operation_max_concurrent = settings operation_max_concurrent;
  restart_required_fields =
      if same_value (configured operation_max_concurrent) (settings operation_max_concurrent)
      then []
      else operation_max_concurrent ∷ [];
}

-- resolve
unfoldable pub resolve : Policy → Result String TransferPolicySnapshot
resolve p = do configured ← configured_values p; ok (snapshot_of p.settings configured)

-- _serialize
unfoldable pub serialize : (Integer → String) → PolicyValue → String
serialize print_int (flag true) = "true"
serialize print_int (flag false) = "false"
serialize print_int (number n) = print_int n

abbrev pub given : PolicyField → List (String × PolicyValue) → Option PolicyValue
given f [] = none
given f ((name, v) ∷ rest) = if str_eq name (field_name f) then some v else given f rest

abbrev pub is_unknown : String → Bool
is_unknown name = not (any (λ f. str_eq name (field_name f)) policy_fields)

-- {**current, **values}
abbrev pub candidate : Values → List (String × PolicyValue) → Values
candidate current values f = or_else (given f values) (current f)

abbrev pub is_changed : Values → List (String × PolicyValue) → PolicyField → Bool
is_changed current values f =
    is_some (given f values) && not (same_value (candidate current values f) (current f))

abbrev pub changed_fields :
    Values → List (String × PolicyValue) → List PolicyField → List PolicyField
changed_fields current values [] = []
changed_fields current values (f ∷ fs) =
    let rest = changed_fields current values fs in
    if is_changed current values f then f ∷ rest else rest

abbrev pub store_fields :
    (Integer → String)
    → Values
    → List PolicyField
    → List (PolicyField × String)
    → List (PolicyField × String)
store_fields print_int v [] rows = rows
store_fields print_int v (f ∷ fs) rows =
    store_fields print_int v fs (set_value f (serialize print_int (v f)) rows)

pub record TransferPolicyChange : Type 0 where
  pub changed : List PolicyField
  pub before : List (PolicyField × PolicyValue)
  pub after : List (PolicyField × PolicyValue)
  pub snapshot : TransferPolicySnapshot

abbrev pub stored : Policy → Values → List PolicyField → Policy
stored p v fs = record p { metadata = store_fields p.print_int v fs p.metadata }

abbrev pub change_of :
    Values → Values → List PolicyField → TransferPolicySnapshot → TransferPolicyChange
change_of before after changed snapshot = record {
  changed = changed;
  before = map (λ f. (f, before f)) changed;
  after = map (λ f. (f, after f)) changed;
  snapshot = snapshot;
}

-- The end of update, once the candidate has been accepted.
abbrev pub saved :
    Values → Values → List PolicyField → Policy → Result String (TransferPolicyChange × Policy)
saved before after changed p = do
  snapshot ← resolve (stored p after changed)
  ok (change_of before after changed snapshot, stored p after changed)

-- update
unfoldable pub update :
    List (String × PolicyValue) → Policy → Result String (TransferPolicyChange × Policy)
update values p = do
  refuse_if (any (λ e. is_unknown e.0) values) "transfer_policy_unknown_field"
  current ← configured_values p
  validate (candidate current values)
  saved current (candidate current values) (changed_fields current values sorted_fields) p

abbrev pub set_setting : PolicyField → PolicyValue → Values → Values
set_setting f v settings g = if same_field f g then v else settings g

abbrev restart_required : PolicyField → Bool
restart_required f = same_field f operation_max_concurrent

-- apply_runtime
unfoldable pub apply_runtime : List (PolicyField × PolicyValue) → Values → Values
apply_runtime [] settings = settings
apply_runtime ((f, v) ∷ rest) settings =
    apply_runtime rest (if restart_required f then settings else set_setting f v settings)

abbrev pub set_settings : List PolicyField → Values → Values → Values
set_settings [] v settings = settings
set_settings (f ∷ fs) v settings = set_settings fs v (set_setting f (v f) settings)

-- apply_persisted_at_startup
unfoldable pub apply_persisted_at_startup : Policy → Result String Policy
apply_persisted_at_startup p = do
  configured ← configured_values p
  validate configured
  ok (record p { settings = set_settings policy_fields configured p.settings })

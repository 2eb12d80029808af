-- ===== src/Profiles/Service.antt =====
-- HarborProfileService of backend/app/services/harbor_profiles.py. The JSON of the stored profiles is
-- kept as the list that it denotes; casefold and the validation of a URL are parameters.
use harbor_transfer_portal.Base.{
  Bool, Option, Result, String, any, err, false, if◌then◌else◌, is_some, none, not, ok, refuse_if,
  some, true, ◌&&◌, ◌>>=◌, ◌>>=◌, ◌>>◌, ◌||◌,
}
use harbor_transfer_portal.Bundle.Text.{Text, is_empty, same_text}
use harbor_transfer_portal.Domain.Status.{status_in}
use harbor_transfer_portal.Manager.Model.{store}
use harbor_transfer_portal.Profiles.Model.{
  BoundOperation, HarborProfile, ProfileStore, World, default_profile, default_profile_id,
  find_profile,
}
use harbor_transfer_portal.Profiles.Words.{strip}
use harbor_transfer_portal.Runtime.Mode.{blocking_operation_statuses}

abbrev pub ProfileResult {ℓ} : Type ℓ → Type ℓ
ProfileResult A = Result String A

pub record TextRules : Type 0 where
  pub casefold : Text → Text
  pub validated_url : Text → ProfileResult (Option Text)

abbrev found : Option HarborProfile → ProfileResult HarborProfile
found none = err "harbor_profile_not_found"
found (some p) = ok p

-- get
unfoldable pub get : ProfileStore → Text → ProfileResult HarborProfile
get store profile_id =
    if same_text (strip profile_id) default_profile_id
    then ok (default_profile store)
    else found (find_profile (strip profile_id) store.additional)

abbrev selected_id : ProfileStore → Option Text → Text
selected_id store none = store.active_profile_id
selected_id store (some profile_id) =
    if is_empty (strip profile_id) then store.active_profile_id else strip profile_id

abbrev unavailable : HarborProfile → String
unavailable p = if p.is_default then "harbor_not_configured" else "harbor_profile_disabled"

abbrev usable : HarborProfile → ProfileResult HarborProfile
usable p = do
  refuse_if (is_empty p.url) (unavailable p)
  refuse_if (not p.enabled) "harbor_profile_disabled"
  ok p

-- operation_snapshot
unfoldable pub operation_snapshot : ProfileStore → Option Text → ProfileResult HarborProfile
operation_snapshot store profile_id = get store (selected_id store profile_id) >>= λ p. usable p

-- The columns of an operation's snapshot, all of them, none of them or a part.
pub data Binding : Type 0 where
  unbound damaged : Binding
  bound : (id name url : Text) → Binding

abbrev pub binding_of : Option Text → Option Text → Option Text → Binding
binding_of none none none = unbound
binding_of (some i) (some n) (some u) = bound i n u
binding_of _ _ _ = damaged

abbrev pub binding : BoundOperation → Binding
binding o = binding_of o.harbor_profile_id o.harbor_profile_name o.harbor_profile_url

abbrev unchanged : Text → Text → HarborProfile → ProfileResult HarborProfile
unchanged name url p = do
  refuse_if (not (same_text p.name name && same_text p.url url)) "harbor_profile_changed"
  ok p

abbrev pub assert_binding : ProfileStore → Binding → ProfileResult HarborProfile
assert_binding store unbound = operation_snapshot store none
assert_binding store damaged = err "harbor_profile_binding_invalid"
assert_binding store (bound i name url) =
    operation_snapshot store (some i) >>= λ p. unchanged name url p

-- assert_operation_binding
unfoldable pub assert_operation_binding :
    ProfileStore → BoundOperation → ProfileResult HarborProfile
assert_operation_binding store o = assert_binding store (binding o)

abbrev pub bind_to : BoundOperation → HarborProfile → BoundOperation
bind_to o p = record o {
  harbor_profile_id = some p.id;
  harbor_profile_name = some p.name;
  harbor_profile_url = some p.url;
}

-- A row that is bound is only checked, and one without a snapshot takes the selected profile.
abbrev pub bind_selected :
    ProfileStore
    → BoundOperation
    → Binding
    → HarborProfile
    → ProfileResult (BoundOperation × HarborProfile)
bind_selected store o unbound selected = ok (bind_to o selected, selected)
bind_selected store o damaged selected = err "harbor_profile_binding_invalid"
bind_selected store o (bound i name url) selected = do
  refuse_if (not (same_text i selected.id)) "harbor_profile_selection_locked"
  p ← assert_operation_binding store o
  ok (o, p)

abbrev pub is_unbound : Binding → Bool
is_unbound unbound = true
is_unbound _ = false

-- bind_operation_profile
unfoldable pub bind_operation_profile :
    ProfileStore → BoundOperation → Option Text → ProfileResult (BoundOperation × HarborProfile)
bind_operation_profile store o profile_id =
    if not (is_unbound (binding o)) && not (is_some profile_id)
    then assert_operation_binding store o >>= (λ p. ok (o, p))
    else operation_snapshot store profile_id >>= (λ p. bind_selected store o (binding o) p)

-- An unfinished operation, by BLOCKING_OPERATION_STATUSES
abbrev pub is_blocking : BoundOperation → Bool
is_blocking o = status_in o.status blocking_operation_statuses

abbrev pub is_bound_to : Text → Option Text → Bool
is_bound_to i none = false
is_bound_to i (some j) = same_text j i

abbrev pub depends_on : ProfileStore → Text → BoundOperation → Bool
depends_on store i o =
    is_bound_to i o.harbor_profile_id
    || (same_text i store.active_profile_id && not (is_some o.harbor_profile_id))

-- require_mutation_safe
unfoldable pub require_mutation_safe : World → Text → ProfileResult (Unit {0})
require_mutation_safe w profile_id =
    refuse_if (any (λ o. is_blocking o && depends_on w.store (strip profile_id) o) w.operations)
      "harbor_profile_busy"

-- activate
unfoldable pub activate : World → Text → ProfileResult World
activate w profile_id = do
  current ← get w.store w.store.active_profile_id
  chosen ← get w.store profile_id
  refuse_if (not chosen.enabled) "harbor_profile_disabled"
  if same_text current.id chosen.id then ok w else (do
    refuse_if (any (λ o. is_blocking o && not (is_some o.harbor_profile_id)) w.operations)
        "harbor_profile_busy"
    ok (record w { store = record (w.store) { active_profile_id = chosen.id } }))

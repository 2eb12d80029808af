-- ===== src/Profiles/Editing.antt =====
-- create, update and delete of HarborProfileService. The files of a credential and of a CA, which
-- only a delete of the profile removes, are not in the state.
use harbor_transfer_portal.Base.{
  Bool, List, Option, [], any, err, false, if◌then◌else◌, length, ltb, none, not, ok, or_else,
  refuse_if, some, true, ◌&&◌, ◌++◌, ◌>>=◌, ◌>>◌, ◌∷◌,
}
use harbor_transfer_portal.Bundle.Text.{Text, codes, is_empty, join, same_text}
use harbor_transfer_portal.Profiles.Model.{HarborProfile, RegistryType, World, default_profile_id}
use harbor_transfer_portal.Profiles.Service.{
  ProfileResult, TextRules, is_bound_to, require_mutation_safe, get,
}
use harbor_transfer_portal.Profiles.Words.{leb_text, strip, words}

abbrev joined : List Text → Text
joined ws = join 32 ws

-- _normalize_name
unfoldable pub normalize_name : Text → ProfileResult Text
normalize_name value = do
  refuse_if (is_empty (joined (words (strip value)))) "harbor_profile_name_invalid"
  refuse_if (ltb 128 (length (joined (words (strip value))))) "harbor_profile_name_invalid"
  ok (joined (words (strip value)))

abbrev trimmed : Text → Option Text
trimmed s = if is_empty s then none else some s

-- _normalize_username
unfoldable pub normalize_username : Option Text → ProfileResult (Option Text)
normalize_username none = ok none
normalize_username (some value) = do
  refuse_if (ltb 256 (length (strip value))) "harbor_profile_username_invalid"
  ok (trimmed (strip value))

abbrev is_other : Option Text → Text → Bool
is_other none i = true
is_other (some excluded) i = not (same_text i excluded)

-- _assert_unique_name
unfoldable pub assert_unique_name :
    TextRules → Text → List HarborProfile → Option Text → ProfileResult (Unit {0})
assert_unique_name rules name profiles exclude_id = do
  refuse_if (same_text (rules.casefold name) (codes "default harbor"))
      "harbor_profile_name_conflict"
  refuse_if
      (any
        (λ p. is_other exclude_id p.id && same_text (rules.casefold p.name) (rules.casefold name))
        profiles)
      "harbor_profile_name_conflict"

abbrev pub insert : TextRules → HarborProfile → List HarborProfile → List HarborProfile
insert rules p [] = p ∷ []
insert rules p (q ∷ ps) =
    let rest = insert rules p ps in
    if leb_text (rules.casefold p.name) (rules.casefold q.name) then p ∷ (q ∷ ps) else q ∷ rest

-- sorted(profiles, key=lambda value: value.name.casefold()), which is stable
unfoldable pub sorted : TextRules → List HarborProfile → List HarborProfile
sorted rules [] = []
sorted rules (p ∷ ps) = insert rules p (sorted rules ps)

-- _save_additional
unfoldable pub save_additional : TextRules → World → List HarborProfile → World
save_additional rules w profiles = record w {
  store = record (w.store) { additional = sorted rules profiles };
}

abbrev pub required_url : Option Text → ProfileResult Text
required_url none = err "harbor_configuration_invalid"
required_url (some url) = ok url

pub record NewProfile : Type 0 where
  pub name : Text
  pub url : Text
  pub username : Option Text
  pub verify_tls : Bool
  pub enabled : Bool
  pub registry_type : RegistryType

-- create, with the id that uuid4 gives
unfoldable pub create : TextRules → World → Text → NewProfile → ProfileResult World
create rules w new_id fields = do
  name ← normalize_name fields.name
  validated ← rules.validated_url fields.url
  url ← required_url validated
  assert_unique_name rules name w.store.additional none
  username ← normalize_username fields.username
  ok (
      save_additional rules w (
        w.store.additional
        ++ (record {
          id = new_id;
          name = name;
          url = url;
          username = username;
          verify_tls = fields.verify_tls;
          enabled = fields.enabled;
          is_default = false;
          registry_type = fields.registry_type;
        }
            ∷ [])))

-- The arguments of update; a username is given with username_set.
pub record ProfileChange : Type 0 where
  pub name : Option Text
  pub url : Option Text
  pub username : Option (Option Text)
  pub verify_tls : Option Bool
  pub enabled : Option Bool
  pub registry_type : Option RegistryType

abbrev pub given_name : Option Text → Text → ProfileResult Text
given_name none kept = ok kept
given_name (some name) kept = normalize_name name

abbrev pub given_url : TextRules → Option Text → Text → ProfileResult Text
given_url rules none kept = ok kept
given_url rules (some url) kept = rules.validated_url url >>= (λ validated. required_url validated)

abbrev pub given_username : Option (Option Text) → Option Text → ProfileResult (Option Text)
given_username none kept = ok kept
given_username (some username) kept = normalize_username username

abbrev pub put : HarborProfile → List HarborProfile → List HarborProfile
put p [] = []
put p (q ∷ ps) = let rest = put p ps in if same_text q.id p.id then p ∷ rest else q ∷ rest

-- update
unfoldable pub update : TextRules → World → Text → ProfileChange → ProfileResult World
update rules w profile_id change = do
  refuse_if (same_text profile_id default_profile_id) "harbor_profile_default_managed_elsewhere"
  current ← get w.store profile_id
  require_mutation_safe w current.id
  next_name ← given_name change.name current.name
  assert_unique_name rules next_name w.store.additional (some current.id)
  next_url ← given_url rules change.url current.url
  refuse_if
      (same_text current.id w.store.active_profile_id
        && not (or_else change.enabled current.enabled))
      "harbor_profile_active_protected"
  next_username ← given_username change.username current.username
  ok (
      save_additional rules w (
        put
          (record current {
            name = next_name;
            url = next_url;
            username = next_username;
            verify_tls = or_else change.verify_tls current.verify_tls;
            enabled = or_else change.enabled current.enabled;
            registry_type = or_else change.registry_type current.registry_type;
          })
          w.store.additional))

abbrev pub without : Text → List HarborProfile → List HarborProfile
without i [] = []
without i (p ∷ ps) = let rest = without i ps in if same_text p.id i then rest else p ∷ rest

-- delete
unfoldable pub delete : TextRules → World → Text → ProfileResult World
delete rules w profile_id = do
  refuse_if (same_text profile_id default_profile_id) "harbor_profile_default_protected"
  current ← get w.store profile_id
  refuse_if (same_text current.id w.store.active_profile_id) "harbor_profile_active_protected"
  refuse_if (any (λ o. is_bound_to current.id o.harbor_profile_id) w.operations)
      "harbor_profile_in_use"
  ok (save_additional rules w (without current.id w.store.additional))

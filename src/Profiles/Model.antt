-- ===== src/Profiles/Model.antt =====
-- HarborProfile, the stored profiles, and the columns of an operation that bind it to one.
use harbor_transfer_portal.Base.{
  Bool, List, Option, [], if◌then◌else◌, is_some, none, some, true, ℕ, ◌∷◌, ◌≡◌,
}
use harbor_transfer_portal.Domain.Status.{OperationStatus}
use harbor_transfer_portal.Bundle.Text.{Text, same_text, codes}

pub data RegistryType : Type 0 where
  harbor nexus : RegistryType

pub record HarborProfile : Type 0 where
  pub id : Text
  pub name : Text
  pub url : Text
  pub username : Option Text
  pub verify_tls : Bool
  pub enabled : Bool
  pub is_default : Bool
  pub registry_type : RegistryType

-- The effective settings of the default profile.
pub record EffectiveHarborSettings : Type 0 where
  pub url : Option Text
  pub username : Option Text
  pub verify_tls : Bool

-- The settings rows: the default settings, the additional profiles and the active one.
pub record ProfileStore : Type 0 where
  pub default_settings : EffectiveHarborSettings
  pub additional : List HarborProfile
  pub active_profile_id : Text

-- The columns of an operation that the profiles read or write.
pub record BoundOperation : Type 0 where
  pub id : ℕ
  pub status : OperationStatus
  pub harbor_profile_id : Option Text
  pub harbor_profile_name : Option Text
  pub harbor_profile_url : Option Text

pub record World : Type 0 where
  pub store : ProfileStore
  pub operations : List BoundOperation

abbrev pub default_profile_id : Text
default_profile_id = codes "default"

abbrev default_url : Option Text → Text
default_url none = []
default_url (some url) = url

-- _default_profile
unfoldable pub default_profile : ProfileStore → HarborProfile
default_profile store = record {
  id = default_profile_id;
  name = codes "Default Harbor";
  url = default_url store.default_settings.url;
  username = store.default_settings.username;
  verify_tls = store.default_settings.verify_tls;
  enabled = is_some store.default_settings.url;
  is_default = true;
  registry_type = harbor;
}

abbrev pub find_profile : Text → List HarborProfile → Option HarborProfile
find_profile i [] = none
find_profile i (p ∷ ps) = let rest = find_profile i ps in if same_text p.id i then some p else rest

-- The ids are distinct, which _load_additional checks.
unfoldable pub IsDistinct : List HarborProfile → Type 0
IsDistinct [] = Unit
IsDistinct (p ∷ ps) = (find_profile p.id ps ≡ none) × IsDistinct ps

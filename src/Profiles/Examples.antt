-- ===== src/Profiles/Examples.antt =====
-- The profiles on concrete stores.
use harbor_transfer_portal.Base.{List, [], false, none, ok, refl, some, true, ◌∷◌, ◌≡◌}
use harbor_transfer_portal.Bundle.Text.{codes}
use harbor_transfer_portal.Domain.Status.{importing}
use harbor_transfer_portal.Profiles.Editing.{
  NewProfile, assert_unique_name, normalize_name, normalize_username, save_additional, sorted,
  create, delete,
}
use harbor_transfer_portal.Profiles.Model.{
  BoundOperation, HarborProfile, World, default_profile, default_profile_id, harbor, nexus,
  IsDistinct,
}
use harbor_transfer_portal.Profiles.Requests.{
  AreFresh, IsFresh, IsPinned, Request, activate_profile, bind_profile, create_profile,
  delete_profile, find_row, perform, run,
}
use harbor_transfer_portal.Profiles.Service.{
  TextRules, activate, assert_operation_binding, bind_operation_profile, operation_snapshot,
  require_mutation_safe,
}
use harbor_transfer_portal.Profiles.Stable.{run-keeps_profile}
use harbor_transfer_portal.Profiles.Words.{is_space, leb_text, strip}
use harbor_transfer_portal.Profiles.Service.{get}

abbrev plain : TextRules
plain = record { casefold = λ t. t; validated_url = λ t. ok (some t) }

abbrev mirror : HarborProfile
mirror = record {
  id = codes "aa";
  name = codes "Mirror";
  url = codes "https://mirror";
  username = none;
  verify_tls = true;
  enabled = true;
  is_default = false;
  registry_type = harbor;
}

abbrev pinned_row : BoundOperation
pinned_row = record {
  id = 7;
  status = importing;
  harbor_profile_id = some (codes "aa");
  harbor_profile_name = some (codes "Mirror");
  harbor_profile_url = some (codes "https://mirror");
}

abbrev before : World
before = record {
  store = record {
    default_settings = record {
      url = some (codes "https://main");
      username = none;
      verify_tls = true;
    };
    additional = mirror ∷ [];
    active_profile_id = default_profile_id;
  };
  operations = pinned_row ∷ [];
}

abbrev backup : NewProfile
backup = record {
  name = codes "  Backup   site ";
  url = codes "https://backup";
  username = none;
  verify_tls = true;
  enabled = true;
  registry_type = nexus;
}

abbrev requests : List Request
requests =
    create_profile (codes "bb") backup
    ∷ delete_profile (codes "aa")
    ∷ activate_profile (codes "bb")
    ∷ bind_profile 7 (some (codes "bb"))
    ∷ []

requests-active : (run plain requests before).store.active_profile_id ≡ codes "bb"
unfolding run perform create activate get normalize_name normalize_username assert_unique_name
    save_additional sorted strip is_space leb_text default_profile delete require_mutation_safe
    bind_operation_profile operation_snapshot
requests-active = refl

before-IsPinned : IsPinned before 7 pinned_row (codes "aa")
unfolding strip is_space
before-IsPinned = record {
  row = refl;
  unfinished = refl;
  bound_id = refl;
  stripped = refl;
  nonempty = refl;
}

before-IsDistinct : IsDistinct before.store.additional
unfolding IsDistinct
before-IsDistinct = (refl, tt)

requests-AreFresh : AreFresh plain requests before
unfolding AreFresh IsFresh
requests-AreFresh = ((refl, refl), (tt, (tt, (tt, tt))))

run-keeps_profile_example :
    (find_row 7 (run plain requests before).operations ≡ some pinned_row)
    × (assert_operation_binding (run plain requests before).store pinned_row
        ≡ assert_operation_binding before.store pinned_row)
run-keeps_profile_example =
    run-keeps_profile 7 pinned_row (codes "aa") plain requests before before-IsPinned
      before-IsDistinct requests-AreFresh

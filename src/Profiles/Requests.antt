-- ===== src/Profiles/Requests.antt =====
-- Requests to HarborProfileService one after the other.
use harbor_transfer_portal.Base.{
  List, Option, [], any, err, false, if◌then◌else◌, none, ok, some, true, ℕ, ◌==◌, ◌∷◌, ◌≡◌,
}
use harbor_transfer_portal.Bundle.Text.{Text, is_empty}
use harbor_transfer_portal.Manager.Model.{store}
use harbor_transfer_portal.Profiles.Editing.{NewProfile, ProfileChange, create, update, delete}
use harbor_transfer_portal.Profiles.Model.{
  BoundOperation, HarborProfile, ProfileStore, World, find_profile,
}
use harbor_transfer_portal.Profiles.Service.{
  ProfileResult, TextRules, activate, bind_operation_profile, is_blocking, is_bound_to,
}
use harbor_transfer_portal.Profiles.Words.{strip}

pub data Request : Type 0 where
  create_profile : (new_id : Text) → (fields : NewProfile) → Request
  update_profile : (profile_id : Text) → (change : ProfileChange) → Request
  delete_profile : (profile_id : Text) → Request
  activate_profile : (profile_id : Text) → Request
  bind_profile : (operation_id : ℕ) → (profile_id : Option Text) → Request

-- A request that raises is rolled back.
abbrev pub committed : World → ProfileResult World → World
committed w (ok after) = after
committed w (err e) = w

abbrev pub row_after :
    BoundOperation → ProfileResult (BoundOperation × HarborProfile) → BoundOperation
row_after o (ok (row, p)) = row
row_after o (err e) = o

abbrev pub bind_row : ProfileStore → ℕ → Option Text → List BoundOperation → List BoundOperation
bind_row store i profile_id [] = []
bind_row store i profile_id (o ∷ os) =
    let rest = bind_row store i profile_id os in
    if o.id == i then row_after o (bind_operation_profile store o profile_id) ∷ os else o ∷ rest

unfoldable pub perform : TextRules → Request → World → World
perform rules (create_profile new_id fields) w = committed w (create rules w new_id fields)
perform rules (update_profile profile_id change) w = committed w (update rules w profile_id change)
perform rules (delete_profile profile_id) w = committed w (delete rules w profile_id)
perform rules (activate_profile profile_id) w = committed w (activate w profile_id)
perform rules (bind_profile i profile_id) w = record w {
  operations = bind_row w.store i profile_id w.operations;
}

unfoldable pub run : TextRules → List Request → World → World
run rules [] w = w
run rules (r ∷ rs) w = run rules rs (perform rules r w)

-- uuid4 gives an id that no profile has and no operation is bound to.
unfoldable pub IsFresh : Request → World → Type 0
IsFresh (create_profile new_id fields) w =
    (find_profile new_id w.store.additional ≡ none)
    × (any (λ o. is_bound_to new_id o.harbor_profile_id) w.operations ≡ false)
IsFresh _ w = Unit

unfoldable pub AreFresh : TextRules → List Request → World → Type 0
AreFresh rules [] w = Unit
AreFresh rules (r ∷ rs) w = IsFresh r w × AreFresh rules rs (perform rules r w)

abbrev pub find_row : ℕ → List BoundOperation → Option BoundOperation
find_row i [] = none
find_row i (o ∷ os) = let rest = find_row i os in if o.id == i then some o else rest

-- An unfinished operation that is bound to the profile with the id `j`.
pub record IsPinned (w : World) (i : ℕ) (o : BoundOperation) (j : Text) : Type 0 where
  pub row : find_row i w.operations ≡ some o
  pub unfinished : is_blocking o ≡ true
  pub bound_id : o.harbor_profile_id ≡ some j
  pub stripped : strip j ≡ j
  pub nonempty : is_empty j ≡ false

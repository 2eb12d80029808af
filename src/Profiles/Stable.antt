-- ===== src/Profiles/Stable.antt =====
-- The profile of an unfinished operation over any sequence of requests.
use mathlib.Core.Path.{subst}
use harbor_transfer_portal.Base.{sym, true}
use harbor_transfer_portal.Base.{
  List, [], ap, is_some, none, not, some, ℕ, ◌&&◌, ◌==◌, ◌∙◌, ◌∷◌, Bool-cases, Option, err, false,
  inl, inr, ok, refl, ◌>>=◌, ◌≡◌,
}
use harbor_transfer_portal.Bundle.Text.{is_empty, Text, same_text}
use harbor_transfer_portal.Profiles.Editing.{create, delete, update}
use harbor_transfer_portal.Profiles.Keeps.{
  Keeps, activate-Keeps, create-Keeps, delete-Keeps, update-Keeps,
}
use harbor_transfer_portal.Profiles.Model.{
  World, BoundOperation, HarborProfile, ProfileStore, IsDistinct,
}
use harbor_transfer_portal.Profiles.Requests.{
  AreFresh, IsFresh, IsPinned, Request, activate_profile, bind_profile, bind_row, committed,
  create_profile, delete_profile, find_row, perform, run, update_profile, row_after,
}
use harbor_transfer_portal.Profiles.Service.{
  get, TextRules, activate, assert_binding, binding_of, operation_snapshot, Binding, ProfileResult,
  assert_operation_binding, bind_operation_profile, bind_selected, binding, bound, damaged,
  is_unbound, unbound,
}
use harbor_transfer_portal.Profiles.Words.{strip}

-- A row that is bound stays as it is, whatever profile is asked for.
module _ (o : BoundOperation) where
  checked_row : (r : ProfileResult HarborProfile) → row_after o (r >>= (λ p. ok (o, p))) ≡ o
  checked_row (ok p) = refl
  checked_row (err e) = refl

  selected_row :
      (store : ProfileStore) (b : Binding) (r : ProfileResult HarborProfile)
      → is_unbound b ≡ false
      → row_after o (r >>= (λ p. bind_selected store o b p)) ≡ o
  selected_row store b (err e) h = refl
  selected_row store unbound (ok p) h = cc
  selected_row store damaged (ok p) h = refl
  selected_row store (bound i name url) (ok p) h = elim (Bool-cases (same_text i p.id)) [
    | inl e ↦ rw e (checked_row (assert_operation_binding store o))
    | inr e ↦ rw e refl
  ]

  bound_row :
      (store : ProfileStore) (profile_id : Option Text)
      → is_unbound (binding o) ≡ false
      → row_after o (bind_operation_profile store o profile_id) ≡ o
  unfolding bind_operation_profile
  bound_row store profile_id h =
      elim (Bool-cases (not (is_unbound (binding o)) && not (is_some profile_id))) [
        | inl e ↦ rw e (checked_row (assert_operation_binding store o))
        | inr e ↦ rw e (selected_row store (binding o) (operation_snapshot store profile_id) h)
      ]

  selected_row_id :
      (store : ProfileStore) (b : Binding) (r : ProfileResult HarborProfile)
      → (row_after o (r >>= (λ p. bind_selected store o b p))).id ≡ o.id
  selected_row_id store b (err e) = refl
  selected_row_id store unbound (ok p) = refl
  selected_row_id store damaged (ok p) = refl
  selected_row_id store (bound i name url) (ok p) =
      ap (λ r. r.id) (selected_row store (bound i name url) (ok p) refl)

  row_after_id :
      (store : ProfileStore) (profile_id : Option Text)
      → (row_after o (bind_operation_profile store o profile_id)).id ≡ o.id
  unfolding bind_operation_profile
  row_after_id store profile_id =
      elim (Bool-cases (not (is_unbound (binding o)) && not (is_some profile_id))) [
        | inl e ↦ rw e (ap (λ r. r.id) (checked_row (assert_operation_binding store o)))
        | inr e ↦ rw e (selected_row_id store (binding o) (operation_snapshot store profile_id))
      ]

bound-binding : (j : Text) (n u : Option Text) → is_unbound (binding_of (some j) n u) ≡ false
bound-binding j none u = refl
bound-binding j (some n) none = refl
bound-binding j (some n) (some u) = refl

first_row :
    (store : ProfileStore) (k : ℕ) (profile_id : Option Text) (i : ℕ) (o : BoundOperation)
    (os : List BoundOperation)
    → (o.id == i) ≡ true
    → is_unbound (binding o) ≡ false
    → find_row i (bind_row store k profile_id (o ∷ os)) ≡ some o
first_row store k profile_id i o os e b = elim (Bool-cases (o.id == k)) [
  | inl f ↦ rw f (rw (bound_row o store profile_id b) (rw e refl))
  | inr f ↦ rw f (rw e refl)
]

find_row-bind_row :
    (store : ProfileStore) (k : ℕ) (profile_id : Option Text) (i : ℕ) (o : BoundOperation)
    (os : List BoundOperation)
    → find_row i os ≡ some o
    → is_unbound (binding o) ≡ false
    → find_row i (bind_row store k profile_id os) ≡ some o
find_row-bind_row store k profile_id i o [] h b = h
find_row-bind_row store k profile_id i o (q ∷ os) h b = elim (Bool-cases (q.id == i)) [
  | inl e ↦
      let x : some q ≡ some o = rw e at h in
      let y : q ≡ o = cc in
      subst (λ z. find_row i (bind_row store k profile_id (z ∷ os)) ≡ some o) (sym y)
        (first_row store k profile_id i o os (subst (λ z. (z.id == i) ≡ true) y e) b)
  | inr e ↦
      let x : find_row i os ≡ some o = rw e at h in
      elim (Bool-cases (q.id == k)) [
        | inl f ↦ rw f (rw (row_after_id q store profile_id) (rw e x))
        | inr f ↦ rw f (rw e (find_row-bind_row store k profile_id i o os x b))
      ]
]

module _ (i : ℕ) (o : BoundOperation) (j : Text) where
  assert_binding_same :
      (s t : ProfileStore) (n u : Option Text)
      → strip j ≡ j
      → is_empty j ≡ false
      → get t j ≡ get s j
      → assert_binding t (binding_of (some j) n u) ≡ assert_binding s (binding_of (some j) n u)
  unfolding operation_snapshot
  assert_binding_same s t none u p q h = refl
  assert_binding_same s t (some n) none p q h = refl
  assert_binding_same s t (some n) (some u) p q h = rw p (rw q (rw h refl))

  assert_same :
      (w : World) (t : ProfileStore)
      → IsPinned w i o j
      → get t j ≡ get w.store j
      → assert_operation_binding t o ≡ assert_operation_binding w.store o
  unfolding assert_operation_binding
  assert_same w t k h = rw k.bound_id (
      assert_binding_same w.store t o.harbor_profile_name o.harbor_profile_url k.stripped k.nonempty
        h)

  kept :
      (w : World) (r : ProfileResult World)
      → IsDistinct w.store.additional
      → ((after : World) → r ≡ ok after → Keeps j w after)
      → Keeps j w (committed w r)
  kept w (ok after) d h = h after refl
  kept w (err e) d h = record { lookup = refl; distinct = d; rows = refl }

  IsPinned-still :
      (w after : World) → IsPinned w i o j → after.operations ≡ w.operations → IsPinned after i o j
  IsPinned-still w after k h = record {
    row = rw h k.row;
    unfinished = k.unfinished;
    bound_id = k.bound_id;
    stripped = k.stripped;
    nonempty = k.nonempty;
  }

  -- What one request leaves.
  record Stays (w after : World) : Type 0 where
    pinned : IsPinned after i o j
    distinct : IsDistinct after.store.additional
    lookup : get after.store j ≡ get w.store j

  stays : (w after : World) → IsPinned w i o j → Keeps j w after → Stays w after
  stays w after k s = record {
    pinned = IsPinned-still w after k s.rows;
    distinct = s.distinct;
    lookup = s.lookup;
  }

  perform-Stays :
      (rules : TextRules) (r : Request) (w : World)
      → IsPinned w i o j
      → IsDistinct w.store.additional
      → IsFresh r w
      → Stays w (perform rules r w)
  unfolding perform
  perform-Stays rules (create_profile new_id fields) w k d f = stays w _ k (
      kept w (create rules w new_id fields) d
        (λ after h. create-Keeps rules w i o j k d new_id fields f h))
  perform-Stays rules (update_profile profile_id change) w k d f = stays w _ k (
      kept w (update rules w profile_id change) d
        (λ after h. update-Keeps rules w i o j k d profile_id change h))
  perform-Stays rules (delete_profile profile_id) w k d f = stays w _ k (
      kept w (delete rules w profile_id) d (λ after h. delete-Keeps rules w i o j k d profile_id h))
  perform-Stays rules (activate_profile profile_id) w k d f =
      stays w _ k (
        kept w (activate w profile_id) d (λ after h. activate-Keeps rules w i o j k d profile_id h))
  perform-Stays rules (bind_profile n profile_id) w k d f = record {
    pinned = record {
      row =
          find_row-bind_row w.store n profile_id i o w.operations k.row
            (rw k.bound_id (bound-binding j o.harbor_profile_name o.harbor_profile_url));
      unfinished = k.unfinished;
      bound_id = k.bound_id;
      stripped = k.stripped;
      nonempty = k.nonempty;
    };
    distinct = d;
    lookup = refl;
  }

  -- Whatever requests follow, an unfinished operation that is bound to a profile keeps its row, and
  -- its check gives what it gave.
  pub run-keeps_profile :
      (rules : TextRules) (rs : List Request) (w : World)
      → IsPinned w i o j
      → IsDistinct w.store.additional
      → AreFresh rules rs w
      → (find_row i (run rules rs w).operations ≡ some o)
        × (assert_operation_binding (run rules rs w).store o ≡ assert_operation_binding w.store o)
  unfolding run AreFresh
  run-keeps_profile rules [] w k d f = (k.row, refl)
  run-keeps_profile rules (r ∷ rs) w k d f =
      let s = perform-Stays rules r w k d (f.0) in
      let (p, q) = run-keeps_profile rules rs (perform rules r w) s.pinned s.distinct (f.1) in
      (p, q ∙ assert_same w (perform rules r w).store k s.lookup)

-- ===== src/Profiles/Keeps.antt =====
-- What a request of HarborProfileService leaves of the profile of an unfinished operation.
use mathlib.Core.Path.{subst}
use harbor_transfer_portal.Base.{
  Bool, Bool-cases, List, String, [], and_true_iff, any, ap, bind-ok, false, if◌then◌else◌, inl,
  inr, is_some, none, not, ok, or_else, or_left, or_right, refl, refuse_if, refuse_if-ok,
  refuse_if_passed, returned, some, sym, then-ok, true, ℕ, ◌&&◌, ◌==◌, ◌>>◌, ◌∙◌, ◌∷◌, ◌≡◌,
}
use harbor_transfer_portal.Bundle.Text.{Text, same_text, same_text_iff}
use harbor_transfer_portal.Profiles.Editing.{
  NewProfile, ProfileChange, assert_unique_name, given_name, given_url, given_username,
  normalize_name, normalize_username, required_url, save_additional, without, create, update,
  delete,
}
use harbor_transfer_portal.Profiles.Lookup.{
  append-IsDistinct, find_profile-append, find_profile-put, find_profile-sorted,
  find_profile-without, put-IsDistinct, sorted-IsDistinct, without-IsDistinct,
}
use harbor_transfer_portal.Profiles.Model.{
  BoundOperation, HarborProfile, World, default_profile, default_profile_id, find_profile,
  IsDistinct,
}
use harbor_transfer_portal.Profiles.Requests.{IsFresh, IsPinned, create_profile, find_row}
use harbor_transfer_portal.Profiles.Service.{
  TextRules, activate, depends_on, is_blocking, is_bound_to, require_mutation_safe, get,
}
use harbor_transfer_portal.Profiles.Words.{strip}

-- What is left of a request for a profile that an unfinished operation is bound to.
pub record Keeps (j : Text) (w after : World) : Type 0 where
  pub lookup : get after.store j ≡ get w.store j
  pub distinct : IsDistinct after.store.additional
  pub rows : after.operations ≡ w.operations

any-row :
    (p : BoundOperation → Bool) (i : ℕ) (o : BoundOperation) (os : List BoundOperation)
    → find_row i os ≡ some o
    → p o ≡ true
    → any p os ≡ true
any-row p i o [] h t = cc
any-row p i o (q ∷ os) h t = elim (Bool-cases (q.id == i)) [
  | inl e ↦
      let x = rw e at h in
      let y : q ≡ o = cc in or_left (any p os) (subst (λ z. p z ≡ true) (sym y) t)
  | inr e ↦ or_right (p q) (any-row p i o os (rw e at h) t)
]

-- Another list of additional profiles in which the id finds what it found.
saved-Keeps :
    (rules : TextRules) (w : World) (j : Text) (ps : List HarborProfile)
    → find_profile (strip j) ps ≡ find_profile (strip j) w.store.additional
    → IsDistinct ps
    → Keeps j w (save_additional rules w ps)
unfolding save_additional get default_profile
saved-Keeps rules w j ps h d = record {
  lookup = rw (find_profile-sorted rules (strip j) ps d) (rw h refl);
  distinct = sorted-IsDistinct rules ps d;
  rows = refl;
}

module _ (rules : TextRules) (w : World) (i : ℕ) (o : BoundOperation) (j : Text)
    (k : IsPinned w i o j) (d : IsDistinct w.store.additional) where
  bound_to :
      (x : Text)
      → any (λ a. is_bound_to x a.harbor_profile_id) w.operations ≡ false
      → same_text x (strip j) ≡ false
  bound_to x h = elim (Bool-cases (same_text x j)) [
    | inl e ↦
        let t : is_bound_to x o.harbor_profile_id ≡ true =
          rw k.bound_id ((same_text_iff j x).1 (sym ((same_text_iff x j).0 e))) in
        let y = any-row (λ a. is_bound_to x a.harbor_profile_id) i o w.operations k.row t in cc
    | inr e ↦ rw k.stripped e
  ]

  mutation_safe :
      (x : Text) {u : Unit {0}} → require_mutation_safe w x ≡ ok u → same_text x (strip j) ≡ false
  unfolding require_mutation_safe
  mutation_safe x h = elim (Bool-cases (same_text x (strip j))) [
    | inl e ↦
        let s : strip x ≡ j =
          ap strip ((same_text_iff x (strip j)).0 e) ∙ ap strip k.stripped ∙ k.stripped in
        let t : is_bound_to (strip x) o.harbor_profile_id ≡ true =
          rw k.bound_id ((same_text_iff j (strip x)).1 (sym s)) in
        let b = (and_true_iff (is_blocking o) (depends_on w.store (strip x) o)).1 (
          k.unfinished,
          or_left
              (same_text (strip x) w.store.active_profile_id && not (is_some o.harbor_profile_id))
              t,
        ) in
        let y =
          any-row (λ a. is_blocking a && depends_on w.store (strip x) a) i o w.operations k.row b in
        let z =
          refuse_if_passed (any (λ a. is_blocking a && depends_on w.store (strip x) a) w.operations)
            "harbor_profile_busy" h in
        cc
    | inr e ↦ e
  ]

  pub create-Keeps :
      (new_id : Text) (fields : NewProfile) {after : World}
      → IsFresh (create_profile new_id fields) w
      → create rules w new_id fields ≡ ok after
      → Keeps j w after
  unfolding create IsFresh
  create-Keeps new_id fields f h =
      let (name, p1, h1) = bind-ok (normalize_name fields.name) _ h in
      let (validated, p2, h2) = bind-ok (rules.validated_url fields.url) _ h1 in
      let (url, p3, h3) = bind-ok (required_url validated) _ h2 in
      let (p4, h4) = then-ok (assert_unique_name rules name w.store.additional none) _ h3 in
      let (trimmed_username, p5, h5) = bind-ok (normalize_username fields.username) _ h4 in
      subst (λ a. Keeps j w a) (returned h5)
        (saved-Keeps rules w j _
          (find_profile-append (strip j) _ w.store.additional (bound_to new_id (f.1)))
          (append-IsDistinct _ w.store.additional (f.0) d))

  pub update-Keeps :
      (profile_id : Text) (change : ProfileChange) {after : World}
      → update rules w profile_id change ≡ ok after
      → Keeps j w after
  unfolding update
  update-Keeps profile_id change h =
      let (p0, h0) =
        refuse_if-ok (same_text profile_id default_profile_id)
          "harbor_profile_default_managed_elsewhere" _ h in
      let (current, p1, h1) = bind-ok (get w.store profile_id) _ h0 in
      let (p2, h2) = then-ok (require_mutation_safe w current.id) _ h1 in
      let (next_name, p3, h3) = bind-ok (given_name change.name current.name) _ h2 in
      let (p4, h4) =
        then-ok (assert_unique_name rules next_name w.store.additional (some current.id)) _ h3 in
      let (next_url, p5, h5) = bind-ok (given_url rules change.url current.url) _ h4 in
      let (p6, h6) =
        refuse_if-ok
          (same_text current.id w.store.active_profile_id
            && not (or_else change.enabled current.enabled))
          "harbor_profile_active_protected" _ h5 in
      let (next_username, p7, h7) =
        bind-ok (given_username change.username current.username) _ h6 in
      subst (λ a. Keeps j w a) (returned h7)
        (saved-Keeps rules w j _
          (find_profile-put (strip j) _ w.store.additional (mutation_safe current.id p2))
          (put-IsDistinct _ w.store.additional d))

  pub delete-Keeps :
      (profile_id : Text) {after : World} → delete rules w profile_id ≡ ok after → Keeps j w after
  unfolding delete
  delete-Keeps profile_id h =
      let (p0, h0) =
        refuse_if-ok (same_text profile_id default_profile_id) "harbor_profile_default_protected" _
          h in
      let (current, p1, h1) = bind-ok (get w.store profile_id) _ h0 in
      let (p2, h2) =
        refuse_if-ok (same_text current.id w.store.active_profile_id)
          "harbor_profile_active_protected" _ h1 in
      let (p3, h3) =
        refuse_if-ok (any (λ a. is_bound_to current.id a.harbor_profile_id) w.operations)
          "harbor_profile_in_use" _ h2 in
      subst (λ a. Keeps j w a) (returned h3)
        (saved-Keeps rules w j (without current.id w.store.additional)
          (find_profile-without (strip j) current.id w.store.additional (bound_to current.id p3))
          (without-IsDistinct current.id w.store.additional d))

  switched-Keeps :
      (b : Bool) (x : Text) (e : String) (bad : Bool) {after : World}
      → (if b then ok w else (do
        refuse_if bad e
        ok (record w { store = record (w.store) { active_profile_id = x } })))
        ≡ ok after
      → Keeps j w after
  unfolding get default_profile
  switched-Keeps true x e bad h =
      subst (λ a. Keeps j w a) (returned h) (record { lookup = refl; distinct = d; rows = refl })
  switched-Keeps false x e bad h =
      let (p, q) = refuse_if-ok bad e _ h in
      subst (λ a. Keeps j w a) (returned q) (record { lookup = refl; distinct = d; rows = refl })

  pub activate-Keeps :
      (profile_id : Text) {after : World} → activate w profile_id ≡ ok after → Keeps j w after
  unfolding activate
  activate-Keeps profile_id h =
      let (current, p0, h0) = bind-ok (get w.store w.store.active_profile_id) _ h in
      let (chosen, p1, h1) = bind-ok (get w.store profile_id) _ h0 in
      let (p2, h2) = refuse_if-ok (not chosen.enabled) "harbor_profile_disabled" _ h1 in
      switched-Keeps (same_text current.id chosen.id) chosen.id _ _ h2

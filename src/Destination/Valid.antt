-- ===== src/Destination/Valid.antt =====
-- A valid plan writes no coordinate of the registry twice.
use mathlib.Core.Path.{subst}
use harbor_transfer_portal.Base.{◌==◌}
use harbor_transfer_portal.Destination.Collisions.{writes}
use harbor_transfer_portal.Base.{
  ==_iff, Bool, Bool-cases, List, [], ap, arith, false, inl, inr, or_left, refl, sym, true, ℕ, ◌&&◌,
  ◌∙◌, ◌∷◌, ◌≡◌,
}
use harbor_transfer_portal.Destination.Build.{collided, marked}
use harbor_transfer_portal.Destination.Collisions.{
  colliding_artifact_indices-iff-IsShared, indices_at,
}
use harbor_transfer_portal.Destination.Coordinates.{
  Coordinate, Destinations, add_item, colliding_artifact_indices, gather, has_several, mem,
  registry_coordinate, repeated,
}
use harbor_transfer_portal.Destination.Model.{
  ArtifactPlan, all_writable, is_writable, is_writable_state,
}

gather-marked :
    (cs : List ℕ) (ds : Destinations) (items : List ArtifactPlan)
    → gather ds (marked cs items) ≡ gather ds items
unfolding gather marked collided registry_coordinate
gather-marked cs ds [] = refl
gather-marked cs ds (item ∷ items) = elim (Bool-cases (mem item.index cs)) [
  | inl e ↦ rw e (gather-marked cs (add_item (registry_coordinate item) item.index ds) items)
  | inr e ↦ rw e (gather-marked cs (add_item (registry_coordinate item) item.index ds) items)
]

pub colliding-marked :
    (cs : List ℕ) (items : List ArtifactPlan)
    → colliding_artifact_indices (marked cs items) ≡ colliding_artifact_indices items
unfolding colliding_artifact_indices
colliding-marked cs items = ap repeated (gather-marked cs [] items)

collided-unwritable : (item : ArtifactPlan) → is_writable (collided item) ≡ false
unfolding is_writable collided is_writable_state
collided-unwritable item = elim (Bool-cases (item.project_exists && item.write_allowed)) [
  | inl e ↦ ground arith
  | inr e ↦ ground arith
]

and_false : (a : Bool) → (a && false) ≡ false
and_false true = refl
and_false false = refl

unmarked : (cs : List ℕ) (i j : ℕ) → mem i cs ≡ true → mem j cs ≡ false → (j == i) ≡ false
unmarked cs i j m n = elim (Bool-cases (j == i)) [
  | inl e ↦ let p = (==_iff j i).0 e in let x = subst (λ k. mem k cs ≡ false) p n in cc
  | inr e ↦ e
]

behind :
    (i : ℕ) (c : Coordinate) (item : ArtifactPlan) (items : List ArtifactPlan)
    → mem i (indices_at c (item ∷ items)) ≡ true
    → (item.index == i) ≡ false
    → mem i (indices_at c items) ≡ true
behind i c item items h n = elim (Bool-cases (writes c (registry_coordinate item))) [
  | inl e ↦ rw n at (rw e at h)
  | inr e ↦ rw e at h
]

-- An artifact with a marked index makes the plan invalid.
marked-unwritable :
    (cs : List ℕ) (i : ℕ) (c : Coordinate) (items : List ArtifactPlan)
    → mem i cs ≡ true
    → mem i (indices_at c items) ≡ true
    → all_writable (marked cs items) ≡ false
unfolding marked all_writable
marked-unwritable cs i c [] m h = cc
marked-unwritable cs i c (item ∷ items) m h = elim (Bool-cases (mem item.index cs)) [
  | inl e ↦ rw e (rw (collided-unwritable item) refl)
  | inr e ↦
      let k = behind i c item items h (unmarked cs i item.index m e) in
      rw e (rw (marked-unwritable cs i c items m k) (and_false (is_writable item)))
]

mem-first : (i : ℕ) (is : List ℕ) → mem i (i ∷ is) ≡ true
mem-first i is = or_left (mem i is) ((==_iff i i).1 refl)

-- If every index of the list is excluded, the list is empty.
nothing_in : (is : List ℕ) → ((i : ℕ) → mem i is ≡ true → false ≡ true) → is ≡ []
nothing_in [] h = refl
nothing_in (i ∷ is) h = let x = h i (mem-first i is) in cc

several-first : (is : List ℕ) → has_several is ≡ true → (i : ℕ) × (mem i is ≡ true)
unfolding has_several
several-first [] h = cc
several-first (i ∷ is) h = (i, mem-first i is)

pub writable-uncolliding :
    (items : List ArtifactPlan)
    → all_writable (marked (colliding_artifact_indices items) items) ≡ true
    → colliding_artifact_indices items ≡ []
writable-uncolliding items h = nothing_in (colliding_artifact_indices items) (λ i m.
    let (c, s) = (colliding_artifact_indices-iff-IsShared i items).0 m in
    sym (marked-unwritable (colliding_artifact_indices items) i c items m (s.1)) ∙ h)

pub uncolliding-once :
    (items : List ArtifactPlan) (c : Coordinate)
    → colliding_artifact_indices items ≡ []
    → has_several (indices_at c items) ≡ false
uncolliding-once items c h = elim (Bool-cases (has_several (indices_at c items))) [
  | inl e ↦
      let (i, m) = several-first (indices_at c items) e in
      let x = (colliding_artifact_indices-iff-IsShared i items).1 (c, (e, m)) in
      let y = rw h at x in cc
  | inr e ↦ e
]

-- ===== src/Destination/Collisions.antt =====
-- The dictionary of colliding_artifact_indices, against the list of the artifacts themselves.
use harbor_transfer_portal.Base.{or_cases, or_left, or_right, ◌&&◌}
use harbor_transfer_portal.Destination.Coordinates.{colliding_artifact_indices, has_several}
use harbor_transfer_portal.Base.{or_assoc, or_neither, ◌==◌, ◌||◌, ◌∙◌}
use harbor_transfer_portal.Destination.Coordinates.{add_item, mem, repeated}
use mathlib.Core.Path.{subst}
use harbor_transfer_portal.Base.{
  Bool, Bool-cases, List, Option, [], and_true_iff, any, ap, false, if◌then◌else◌, inl, inr, none,
  refl, some, sym, true, ℕ, ◌++◌, ◌↔◌, ◌∷◌, ◌≡◌,
}
use harbor_transfer_portal.Bundle.Text.{same_text, same_text_iff}
use harbor_transfer_portal.Destination.Coordinates.{
  Coordinate, Destinations, add_index, gather, registry_coordinate, same_coordinate,
}
use harbor_transfer_portal.Destination.Model.{ArtifactPlan}

-- An artifact writes a coordinate.
abbrev pub writes : Coordinate → Option Coordinate → Bool
writes c none = false
writes c (some d) = same_coordinate d c

-- The indices of the artifacts that write a coordinate, in order.
abbrev pub indices_at : Coordinate → List ArtifactPlan → List ℕ
indices_at c [] = []
indices_at c (item ∷ items) =
    let rest = indices_at c items in
    if writes c (registry_coordinate item) then item.index ∷ rest else rest

abbrev recorded : Coordinate → Destinations → List ℕ
recorded c [] = []
recorded c (d ∷ ds) = let rest = recorded c ds in if same_coordinate (d.0) c then d.1 else rest

abbrev has_key : Coordinate → Destinations → Bool
has_key c ds = any (λ d. same_coordinate (d.0) c) ds

-- The keys are distinct.
IsTable : Destinations → Type 0
IsTable [] = Unit
IsTable (d ∷ ds) = (has_key (d.0) ds ≡ false) × IsTable ds

pub same_coordinate_iff : (a b : Coordinate) → (same_coordinate a b ≡ true) ↔ (a ≡ b)
same_coordinate_iff (r, s) (t, u) = (
  λ h.
      let (p, q) = (and_true_iff (same_text r t) (same_text s u)).0 h in
      let x = (same_text_iff r t).0 p in let y = (same_text_iff s u).0 q in cc,
  λ h.
      let x : r ≡ t = ap (λ c. c.0) h in
      let y : s ≡ u = ap (λ c. c.1) h in
      (and_true_iff (same_text r t) (same_text s u)).1
        ((same_text_iff r t).1 x, (same_text_iff s u).1 y),
)

pub same_coordinate_refl : (a : Coordinate) → same_coordinate a a ≡ true
same_coordinate_refl a = (same_coordinate_iff a a).1 refl

differ_sym : (a b : Coordinate) → same_coordinate a b ≡ false → same_coordinate b a ≡ false
differ_sym a b h = elim (Bool-cases (same_coordinate b a)) [
  | inl e ↦
      let p : a ≡ b = sym ((same_coordinate_iff b a).0 e) in
      let q = (same_coordinate_iff a b).1 p in cc
  | inr e ↦ e
]

append_nil : (is : List ℕ) → is ++ [] ≡ is
append_nil [] = refl
append_nil (i ∷ is) = ap (λ r. i ∷ r) (append_nil is)

append_assoc : (a b c : List ℕ) → (a ++ b) ++ c ≡ a ++ (b ++ c)
append_assoc [] b c = refl
append_assoc (i ∷ a) b c = ap (λ r. i ∷ r) (append_assoc a b c)

abbrev when : Bool → ℕ → List ℕ
when true i = i ∷ []
when false i = []

-- The first entry for `c`, or the ones behind it.
recorded_here :
    (c : Coordinate) (i : ℕ) (is : List ℕ) (k : Coordinate) (ds : Destinations)
    → recorded k ((c, is ++ (i ∷ [])) ∷ ds)
      ≡ recorded k ((c, is) ∷ ds) ++ when (same_coordinate c k) i
recorded_here c i is k ds = elim (Bool-cases (same_coordinate c k)) [
  | inl e ↦ rw e refl
  | inr e ↦ rw e (sym (append_nil (recorded k ds)))
]

recorded-add_index :
    (k c : Coordinate) (i : ℕ) (ds : Destinations)
    → recorded k (add_index c i ds) ≡ recorded k ds ++ when (same_coordinate c k) i
unfolding add_index
recorded-add_index k c i [] = elim (Bool-cases (same_coordinate c k)) [
  | inl e ↦ rw e refl
  | inr e ↦ rw e refl
]
recorded-add_index k c i (d ∷ ds) = elim (Bool-cases (same_coordinate (d.0) c)) [
  | inl e ↦
      let p : d.0 ≡ c = (same_coordinate_iff (d.0) c).0 e in
      rw e (
        subst
          (λ x.
            recorded k ((d.0, d.1 ++ (i ∷ [])) ∷ ds)
            ≡ recorded k (d ∷ ds) ++ when (same_coordinate x k) i)
          p (recorded_here (d.0) i (d.1) k ds))
  | inr e ↦ rw e (elim (Bool-cases (same_coordinate (d.0) k)) [
    | inl f ↦
        let q : d.0 ≡ k = (same_coordinate_iff (d.0) k).0 f in
        let n : same_coordinate c k ≡ false =
          subst (λ x. same_coordinate c x ≡ false) q (differ_sym (d.0) c e) in
        rw n (rw f (sym (append_nil (d.1))))
    | inr f ↦ rw f (recorded-add_index k c i ds)
  ])
]

recorded-add_item :
    (k : Coordinate) (o : Option Coordinate) (i : ℕ) (ds : Destinations)
    → recorded k (add_item o i ds) ≡ recorded k ds ++ when (writes k o) i
recorded-add_item k none i ds = sym (append_nil (recorded k ds))
recorded-add_item k (some c) i ds = recorded-add_index k c i ds

when_onto : (b : Bool) (i : ℕ) (is : List ℕ) → when b i ++ is ≡ (if b then i ∷ is else is)
when_onto true i is = refl
when_onto false i is = refl

recorded-gather :
    (k : Coordinate) (ds : Destinations) (items : List ArtifactPlan)
    → recorded k (gather ds items) ≡ recorded k ds ++ indices_at k items
unfolding gather
recorded-gather k ds [] = sym (append_nil (recorded k ds))
recorded-gather k ds (item ∷ items) =
    let o = registry_coordinate item in
    recorded-gather k (add_item o item.index ds) items
    ∙ ap (λ r. r ++ indices_at k items) (recorded-add_item k o item.index ds)
    ∙ append_assoc (recorded k ds) (when (writes k o) item.index) (indices_at k items)
    ∙ ap (λ r. recorded k ds ++ r) (when_onto (writes k o) item.index (indices_at k items))

has_key-add_index :
    (k c : Coordinate) (i : ℕ) (ds : Destinations)
    → has_key k ds ≡ false
    → same_coordinate c k ≡ false
    → has_key k (add_index c i ds) ≡ false
unfolding add_index
has_key-add_index k c i [] h n = rw n refl
has_key-add_index k c i (d ∷ ds) h n =
    let (p, q) = or_neither (same_coordinate (d.0) k) (has_key k ds) h in
    elim (Bool-cases (same_coordinate (d.0) c)) [
      | inl e ↦ rw e h
      | inr e ↦ rw e (rw p (has_key-add_index k c i ds q n))
    ]

IsTable-add_index :
    (c : Coordinate) (i : ℕ) (ds : Destinations) → IsTable ds → IsTable (add_index c i ds)
unfolding add_index IsTable
IsTable-add_index c i [] t = (refl, tt)
IsTable-add_index c i (d ∷ ds) t = elim (Bool-cases (same_coordinate (d.0) c)) [
  | inl e ↦ rw e t
  | inr e ↦
      rw e (
        has_key-add_index (d.0) c i ds (t.0) (differ_sym (d.0) c e),
        IsTable-add_index c i ds (t.1),
      )
]

no_entry-IsTable : IsTable []
unfolding IsTable
no_entry-IsTable = tt

IsTable-add_item :
    (o : Option Coordinate) (i : ℕ) (ds : Destinations) → IsTable ds → IsTable (add_item o i ds)
IsTable-add_item none i ds t = t
IsTable-add_item (some c) i ds t = IsTable-add_index c i ds t

IsTable-gather :
    (ds : Destinations) (items : List ArtifactPlan) → IsTable ds → IsTable (gather ds items)
unfolding gather
IsTable-gather ds [] t = t
IsTable-gather ds (item ∷ items) t =
    IsTable-gather (add_item (registry_coordinate item) item.index ds) items
      (IsTable-add_item (registry_coordinate item) item.index ds t)

recorded-absent : (k : Coordinate) (ds : Destinations) → has_key k ds ≡ false → recorded k ds ≡ []
recorded-absent k [] h = refl
recorded-absent k (d ∷ ds) h =
    let (p, q) = or_neither (same_coordinate (d.0) k) (has_key k ds) h in
    rw p (recorded-absent k ds q)

-- The list has the index and another.
abbrev pub IsShared : ℕ → List ℕ → Type 0
IsShared i is = (has_several is ≡ true) × (mem i is ≡ true)

mem-append : (i : ℕ) (a b : List ℕ) → mem i (a ++ b) ≡ (mem i a || mem i b)
mem-append i [] b = refl
mem-append i (j ∷ a) b = rw (mem-append i a b) (or_assoc (j == i) (mem i a) (mem i b))

mem-repeated :
    (i : ℕ) (d : Coordinate × List ℕ) (ds : Destinations)
    → mem i (repeated (d ∷ ds)) ≡ ((has_several (d.1) && mem i (d.1)) || mem i (repeated ds))
unfolding repeated
mem-repeated i d ds = elim (Bool-cases (has_several (d.1))) [
  | inl e ↦ rw e (mem-append i (d.1) (repeated ds))
  | inr e ↦ rw e refl
]

-- Behind an entry with a key that is not there again, a shared index is under another key.
recorded_behind :
    (i : ℕ) (d : Coordinate × List ℕ) (ds : Destinations) (k : Coordinate)
    → has_key (d.0) ds ≡ false
    → IsShared i (recorded k ds)
    → IsShared i (recorded k (d ∷ ds))
recorded_behind i d ds k h s = elim (Bool-cases (same_coordinate (d.0) k)) [
  | inl e ↦
      let p : d.0 ≡ k = (same_coordinate_iff (d.0) k).0 e in
      let a = recorded-absent k ds (subst (λ x. has_key x ds ≡ false) p h) in
      let m = rw a at (s.1) in cc
  | inr e ↦ rw e s
]

repeated_sound :
    (i : ℕ) (ds : Destinations)
    → IsTable ds
    → mem i (repeated ds) ≡ true
    → (k : Coordinate) × IsShared i (recorded k ds)
unfolding IsTable repeated
repeated_sound i [] t h = cc
repeated_sound i (d ∷ ds) t h =
    elim (or_cases (has_several (d.1) && mem i (d.1)) (mem i (repeated ds))
      (sym (mem-repeated i d ds) ∙ h)) [
        | inl e ↦ (
          d.0,
          rw (same_coordinate_refl (d.0)) ((and_true_iff (has_several (d.1)) (mem i (d.1))).0 e),
        )
        | inr e ↦ let (k, s) = repeated_sound i ds (t.1) e in (k, recorded_behind i d ds k (t.0) s)
      ]

repeated_complete :
    (i : ℕ) (ds : Destinations) (k : Coordinate)
    → IsShared i (recorded k ds)
    → mem i (repeated ds) ≡ true
unfolding repeated
repeated_complete i [] k h = absurd cc
repeated_complete i (d ∷ ds) k h =
    mem-repeated i d ds ∙ elim (Bool-cases (same_coordinate (d.0) k)) [
      | inl e ↦
          or_left (mem i (repeated ds))
            ((and_true_iff (has_several (d.1)) (mem i (d.1))).1 (rw e at h))
      | inr e ↦ or_right (has_several (d.1) && mem i (d.1)) (repeated_complete i ds k (rw e at h))
    ]

-- An index collides exactly if it is one of several that some coordinate is written under.
pub colliding_artifact_indices-iff-IsShared :
    (i : ℕ) (artifacts : List ArtifactPlan)
    → (mem i (colliding_artifact_indices artifacts) ≡ true)
      ↔ ((c : Coordinate) × IsShared i (indices_at c artifacts))
unfolding colliding_artifact_indices
colliding_artifact_indices-iff-IsShared i artifacts = (
  λ h.
      let (k, s) =
        repeated_sound i (gather [] artifacts) (IsTable-gather [] artifacts no_entry-IsTable) h in
      (k, subst (λ is. IsShared i is) (recorded-gather k [] artifacts) s),
  λ h.
      repeated_complete i (gather [] artifacts) (h.0)
        (subst (λ is. IsShared i is) (sym (recorded-gather (h.0) [] artifacts)) (h.1)),
)

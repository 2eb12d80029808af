-- ===== src/Manager/Table.antt =====
-- Laws of the operations table: finding a row, storing it back, and what holds of every row.
use harbor_transfer_portal.Base.{
  ℕ, ◌≡◌, ◌∙◌, refl, ◌==◌, ==_iff, some, List, [], ◌∷◌, map, All, arith, Bool-cases, inl, inr, ◌≢◌,
  sym,
}
use mathlib.Core.Path.{subst}
use harbor_transfer_portal.Manager.Model.{Operation, find_operation, store}

abbrev pub ids : List Operation → List ℕ
ids ops = map (λ o. o.id) ops

pub id-find_operation :
    (id : ℕ) (ops : List Operation) (op : Operation) → find_operation id ops ≡ some op → op.id ≡ id
id-find_operation id [] op h = cc
id-find_operation id (o ∷ os) op h = ground (arith, id-find_operation id os op)

-- Storing a row keeps the keys.
pub ids-store : (op : Operation) (ops : List Operation) → ids (store op ops) ≡ ids ops
ids-store op [] = refl
ids-store op (o ∷ os) = ground (arith, ids-store op os)

pub find_operation-store_self :
    (op : Operation) (ops : List Operation) (old : Operation)
    → find_operation op.id ops ≡ some old
    → find_operation op.id (store op ops) ≡ some op
find_operation-store_self op [] old h = cc
find_operation-store_self op (o ∷ os) old h = elim (Bool-cases (o.id == op.id)) [
  | inl hit ↦ rw hit (rw ((==_iff op.id op.id).1 refl))
  | inr miss ↦ rw miss (rw miss (find_operation-store_self op os old (rw miss at h)))
]

pub find_operation-store_ne :
    (id : ℕ) (op : Operation) (ops : List Operation)
    → op.id ≢ id
    → find_operation id (store op ops) ≡ find_operation id ops
find_operation-store_ne id op [] h = refl
find_operation-store_ne id op (o ∷ os) h = ground (arith, find_operation-store_ne id op os)

module _ (P : Operation → Type 0) where
  pub All-find_operation :
      (id : ℕ) (ops : List Operation) (op : Operation)
      → All P ops
      → find_operation id ops ≡ some op
      → P op
  All-find_operation id [] op h e = cc
  All-find_operation id (o ∷ os) op h e = elim (Bool-cases (o.id == id)) [
    | inl hit ↦ let q : some o ≡ some op = rw hit at e in let p : o ≡ op = cc in subst P p h.0
    | inr miss ↦ All-find_operation id os op h.1 (rw miss at e)
  ]

  pub All-store : (op : Operation) (ops : List Operation) → All P ops → P op → All P (store op ops)
  All-store op [] h p = tt
  All-store op (o ∷ os) h p = elim (Bool-cases (o.id == op.id)) [
    | inl hit ↦ rw hit (p, All-store op os h.1 p)
    | inr miss ↦ rw miss (h.0, All-store op os h.1 p)
  ]

-- A key that is found is one of the keys.
pub find_operation-All-ids :
    (P : ℕ → Type 0) (id : ℕ) (ops : List Operation) (op : Operation)
    → All P (ids ops)
    → find_operation id ops ≡ some op
    → P id
find_operation-All-ids P id [] op h e = cc
find_operation-All-ids P id (o ∷ os) op h e = elim (Bool-cases (o.id == id)) [
  | inl hit ↦ subst P ((==_iff o.id id).0 hit) h.0
  | inr miss ↦ find_operation-All-ids P id os op h.1 (rw miss at e)
]

-- The row stored in the place of the one that was found is found there.
pub find_operation-stored :
    (id : ℕ) (old new : Operation) (ops : List Operation)
    → find_operation id ops ≡ some old
    → new.id ≡ old.id
    → find_operation id (store new ops) ≡ some new
find_operation-stored id old new ops found same =
    let i : new.id ≡ id = same ∙ id-find_operation id ops old found in
    subst (λ k. find_operation k (store new ops) ≡ some new) i
      (find_operation-store_self new ops old
        (subst (λ k. find_operation k ops ≡ some old) (sym i) found))

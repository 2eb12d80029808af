-- ===== src/Base/Results.antt =====
-- A call that returns a value or raises, over the component's own type of errors.
use mathlib.Core.Path.{◌≡◌, refl, subst, sym}
use mathlib.Core.Logic.{◌⊎◌, inl, inr}
use mathlib.Core.Bool.{Bool, true, false}

pub data Result {ℓ κ} (E : Type ℓ) (A : Type κ) : Type (ℓ ⊔ κ) where
  ok : A → Result E A
  err : E → Result E A

module _ {ℓ κ μ} {E : Type ℓ} {A : Type κ} {B : Type μ} where
  infixl 5 ◌>>=◌
  abbrev pub ◌>>=◌ : Result E A → (A → Result E B) → Result E B
  ok a >>= f = f a
  err e >>= f = err e

module _ {ℓ κ} {E : Type ℓ} {B : Type κ} where
  infixl 5 ◌>>◌
  abbrev pub ◌>>◌ : Result E (Unit {0}) → Result E B → Result E B
  ok _ >> k = k
  err e >> k = err e

module _ {ℓ} {E : Type ℓ} where
  -- `if bad: raise e`
  abbrev pub refuse_if : Bool → E → Result E (Unit {0})
  refuse_if true e = err e
  refuse_if false e = ok tt

module _ {ℓ κ} {E : Type ℓ} {A : Type κ} where
  pub Result-cases : (r : Result E A) → ((a : A) × (r ≡ ok a)) ⊎ ((e : E) × (r ≡ err e))
  Result-cases (ok a) = inl (a, refl)
  Result-cases (err e) = inr (e, refl)

  -- the call returned
  abbrev pub is_ok : Result E A → Bool
  is_ok (ok a) = true
  is_ok (err e) = false

module _ {ℓ κ μ} {E : Type ℓ} {A : Type κ} (P : A → Type μ) where
  -- If the call returns, its value satisfies `P`.
  abbrev pub Ensures : Result E A → Type μ
  Ensures (ok a) = P a
  Ensures (err e) = Unit

  pub Ensures-ok : (r : Result E A) {a : A} → Ensures r → r ≡ ok a → P a
  Ensures-ok (ok b) h e = subst (λ r. Ensures r) e h
  Ensures-ok (err x) h e = cc

module _ {ℓ κ μ ν} {E : Type ℓ} {A : Type κ} {B : Type μ} (P : B → Type ν) where
  pub Ensures-bind :
      (m : Result E A) (f : A → Result E B)
      → ((a : A) → m ≡ ok a → Ensures P (f a))
      → Ensures P (m >>= f)
  Ensures-bind (ok a) f h = h a refl
  Ensures-bind (err e) f h = tt

module _ {ℓ κ ν} {E : Type ℓ} {B : Type κ} (P : B → Type ν) where
  pub Ensures-then :
      (m : Result E (Unit {0})) (r : Result E B) → (m ≡ ok tt → Ensures P r) → Ensures P (m >> r)
  Ensures-then (ok tt) r h = h refl
  Ensures-then (err e) r h = tt

module _ {ℓ κ} {E : Type ℓ} {B : Type κ} where
  -- A call behind a guard returned: the guard let it pass.
  pub refuse_if-ok :
      (bad : Bool) (e : E) (r : Result E B) {b : B}
      → refuse_if bad e >> r ≡ ok b
      → (bad ≡ false) × (r ≡ ok b)
  refuse_if-ok true e r h = cc
  refuse_if-ok false e r h = (refl, h)

  -- A call behind a check that returns nothing returned.
  pub then-ok :
      (m : Result E (Unit {0})) (r : Result E B) {b : B} → m >> r ≡ ok b → (m ≡ ok tt) × (r ≡ ok b)
  then-ok (ok tt) r h = (refl, h)
  then-ok (err e) r h = cc

module _ {ℓ κ μ} {E : Type ℓ} {A : Type κ} {B : Type μ} where
  -- A bind returned: both of its calls did.
  pub bind-ok :
      (m : Result E A) (f : A → Result E B) {b : B}
      → m >>= f ≡ ok b
      → (a : A) × (m ≡ ok a) × (f a ≡ ok b)
  bind-ok (ok a) f h = (a, refl, h)
  bind-ok (err e) f h = cc

module _ {ℓ} {E : Type ℓ} where
  pub refuse_if_passed : (bad : Bool) (e : E) {u : Unit {0}} → refuse_if bad e ≡ ok u → bad ≡ false
  refuse_if_passed true e h = cc
  refuse_if_passed false e h = refl

module _ {ℓ κ} {E : Type ℓ} {A : Type κ} where
  -- What a call returned, once.
  pub returned : {a b : A} → ◌≡◌ {A = Result E A} (ok a) (ok b) → a ≡ b
  returned h = cc

module _ {ℓ κ μ} {E : Type ℓ} {A : Type κ} {B : Type μ} where
  -- A bind of a call that returned gives what the rest gives.
  pub bind_from :
      (m : Result E A) (f : A → Result E B) {a : A} {r : Result E B}
      → m ≡ ok a
      → f a ≡ r
      → m >>= f ≡ r
  bind_from (ok b) f {r = r} h k = subst (λ x. f x ≡ r) (sym (returned h)) k
  bind_from (err e) f h k = cc

module _ {ℓ κ} {E : Type ℓ} {B : Type κ} where
  -- A guard that lets pass gives what the rest gives.
  pub refuse_from :
      (bad : Bool) (e : E) (m : Result E B) {r : Result E B}
      → bad ≡ false
      → m ≡ r
      → refuse_if bad e >> m ≡ r
  refuse_from true e m h k = cc
  refuse_from false e m h k = k

  pub then_from :
      (m : Result E (Unit {0})) (n : Result E B) {r : Result E B} → m ≡ ok tt → n ≡ r → m >> n ≡ r
  then_from (ok tt) n h k = k
  then_from (err e) n h k = cc

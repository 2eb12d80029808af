-- ===== src/Profiles/Lookup.antt =====
-- Looking a profile up after the additional profiles were sorted, replaced, removed or extended.
use mathlib.Core.Path.{subst}
use harbor_transfer_portal.Base.{
  Bool-cases, List, [], false, inl, inr, none, refl, sym, true, ◌++◌, ◌∙◌, ◌∷◌, ◌≡◌,
}
use harbor_transfer_portal.Bundle.Text.{Text, same_text, same_text_iff}
use harbor_transfer_portal.Profiles.Editing.{insert, sorted, without, put}
use harbor_transfer_portal.Profiles.Model.{HarborProfile, find_profile, IsDistinct}
use harbor_transfer_portal.Profiles.Service.{TextRules}
use harbor_transfer_portal.Profiles.Words.{leb_text}

same_text_refl : (t : Text) → same_text t t ≡ true
same_text_refl t = (same_text_iff t t).1 refl

-- A text that is another's equal differs from what that one differs from.
pub differs_from :
    (a b c : Text) → same_text a b ≡ true → same_text a c ≡ false → same_text c b ≡ false
differs_from a b c e n = elim (Bool-cases (same_text c b)) [
  | inl f ↦
      let p : a ≡ b = (same_text_iff a b).0 e in
      let q : c ≡ b = (same_text_iff c b).0 f in let r = (same_text_iff a c).1 (p ∙ sym q) in cc
  | inr f ↦ f
]

-- A list without a profile of that id has another first, and the others have none.
pub absent-cons :
    (i : Text) (p : HarborProfile) (ps : List HarborProfile)
    → find_profile i (p ∷ ps) ≡ none
    → (same_text p.id i ≡ false) × (find_profile i ps ≡ none)
absent-cons i p ps h = elim (Bool-cases (same_text p.id i)) [
  | inl e ↦ let x = rw e at h in cc
  | inr e ↦ (e, rw e at h)
]

pub find_profile-insert :
    (rules : TextRules) (i : Text) (p : HarborProfile) (ps : List HarborProfile)
    → find_profile p.id ps ≡ none
    → find_profile i (insert rules p ps) ≡ find_profile i (p ∷ ps)
find_profile-insert rules i p [] h = refl
find_profile-insert rules i p (q ∷ ps) h =
    let (n, k) = absent-cons p.id q ps h in
    elim (Bool-cases (leb_text (rules.casefold p.name) (rules.casefold q.name))) [
      | inl e ↦ rw e refl
      | inr e ↦ rw e (elim (Bool-cases (same_text q.id i)) [
        | inl f ↦ rw f (rw (differs_from q.id i p.id f n) refl)
        | inr f ↦ rw f (find_profile-insert rules i p ps k)
      ])
    ]

pub find_profile-sorted :
    (rules : TextRules) (i : Text) (ps : List HarborProfile)
    → IsDistinct ps
    → find_profile i (sorted rules ps) ≡ find_profile i ps
unfolding sorted IsDistinct
find_profile-sorted rules i [] d = refl
find_profile-sorted rules i (p ∷ ps) d =
    find_profile-insert rules i p (sorted rules ps) (find_profile-sorted rules p.id ps (d.1) ∙ d.0)
    ∙ elim (Bool-cases (same_text p.id i)) [
      | inl e ↦ rw e refl
      | inr e ↦ rw e (find_profile-sorted rules i ps (d.1))
    ]

insert-IsDistinct :
    (rules : TextRules) (p : HarborProfile) (ps : List HarborProfile)
    → find_profile p.id ps ≡ none
    → IsDistinct ps
    → IsDistinct (insert rules p ps)
unfolding IsDistinct
insert-IsDistinct rules p [] h d = (refl, tt)
insert-IsDistinct rules p (q ∷ ps) h d =
    let (n, k) = absent-cons p.id q ps h in
    elim (Bool-cases (leb_text (rules.casefold p.name) (rules.casefold q.name))) [
      | inl e ↦ rw e (h, d)
      | inr e ↦ rw e (
        find_profile-insert rules q.id p ps k
            ∙ rw (differs_from q.id q.id p.id (same_text_refl q.id) n) (d.0),
        insert-IsDistinct rules p ps k (d.1),
      )
    ]

pub sorted-IsDistinct :
    (rules : TextRules) (ps : List HarborProfile) → IsDistinct ps → IsDistinct (sorted rules ps)
unfolding sorted IsDistinct
sorted-IsDistinct rules [] d = tt
sorted-IsDistinct rules (p ∷ ps) d =
    insert-IsDistinct rules p (sorted rules ps) (find_profile-sorted rules p.id ps (d.1) ∙ d.0)
      (sorted-IsDistinct rules ps (d.1))

pub find_profile-put :
    (i : Text) (p : HarborProfile) (ps : List HarborProfile)
    → same_text p.id i ≡ false
    → find_profile i (put p ps) ≡ find_profile i ps
find_profile-put i p [] n = refl
find_profile-put i p (q ∷ ps) n = elim (Bool-cases (same_text q.id p.id)) [
  | inl e ↦
      let x : same_text q.id i ≡ false =
        subst (λ t. same_text t i ≡ false) (sym ((same_text_iff q.id p.id).0 e)) n in
      rw e (rw n (rw x (find_profile-put i p ps n)))
  | inr e ↦ rw e (elim (Bool-cases (same_text q.id i)) [
    | inl f ↦ rw f refl
    | inr f ↦ rw f (find_profile-put i p ps n)
  ])
]

-- No id is added.
put-absent :
    (i : Text) (p : HarborProfile) (ps : List HarborProfile)
    → find_profile i ps ≡ none
    → find_profile i (put p ps) ≡ none
put-absent i p [] h = refl
put-absent i p (q ∷ ps) h =
    let (n, k) = absent-cons i q ps h in
    elim (Bool-cases (same_text q.id p.id)) [
      | inl e ↦
          let x : same_text p.id i ≡ false =
            subst (λ t. same_text t i ≡ false) ((same_text_iff q.id p.id).0 e) n in
          rw e (rw x (put-absent i p ps k))
      | inr e ↦ rw e (rw n (put-absent i p ps k))
    ]

pub put-IsDistinct :
    (p : HarborProfile) (ps : List HarborProfile) → IsDistinct ps → IsDistinct (put p ps)
unfolding IsDistinct
put-IsDistinct p [] d = tt
put-IsDistinct p (q ∷ ps) d = elim (Bool-cases (same_text q.id p.id)) [
  | inl e ↦ rw e (
    put-absent p.id p ps
        (subst (λ t. find_profile t ps ≡ none) ((same_text_iff q.id p.id).0 e) (d.0)),
    put-IsDistinct p ps (d.1),
  )
  | inr e ↦ rw e (put-absent q.id p ps (d.0), put-IsDistinct p ps (d.1))
]

pub find_profile-without :
    (i j : Text) (ps : List HarborProfile)
    → same_text j i ≡ false
    → find_profile i (without j ps) ≡ find_profile i ps
find_profile-without i j [] n = refl
find_profile-without i j (q ∷ ps) n = elim (Bool-cases (same_text q.id j)) [
  | inl e ↦
      let x : same_text q.id i ≡ false =
        subst (λ t. same_text t i ≡ false) (sym ((same_text_iff q.id j).0 e)) n in
      rw e (rw x (find_profile-without i j ps n))
  | inr e ↦ rw e (elim (Bool-cases (same_text q.id i)) [
    | inl f ↦ rw f refl
    | inr f ↦ rw f (find_profile-without i j ps n)
  ])
]

without-absent :
    (i j : Text) (ps : List HarborProfile)
    → find_profile i ps ≡ none
    → find_profile i (without j ps) ≡ none
without-absent i j [] h = refl
without-absent i j (q ∷ ps) h =
    let (n, k) = absent-cons i q ps h in
    elim (Bool-cases (same_text q.id j)) [
      | inl e ↦ rw e (without-absent i j ps k)
      | inr e ↦ rw e (rw n (without-absent i j ps k))
    ]

pub without-IsDistinct :
    (j : Text) (ps : List HarborProfile) → IsDistinct ps → IsDistinct (without j ps)
unfolding IsDistinct
without-IsDistinct j [] d = tt
without-IsDistinct j (q ∷ ps) d = elim (Bool-cases (same_text q.id j)) [
  | inl e ↦ rw e (without-IsDistinct j ps (d.1))
  | inr e ↦ rw e (without-absent q.id j ps (d.0), without-IsDistinct j ps (d.1))
]

pub find_profile-append :
    (i : Text) (p : HarborProfile) (ps : List HarborProfile)
    → same_text p.id i ≡ false
    → find_profile i (ps ++ (p ∷ [])) ≡ find_profile i ps
find_profile-append i p [] n = rw n refl
find_profile-append i p (q ∷ ps) n = elim (Bool-cases (same_text q.id i)) [
  | inl f ↦ rw f refl
  | inr f ↦ rw f (find_profile-append i p ps n)
]

pub append-IsDistinct :
    (p : HarborProfile) (ps : List HarborProfile)
    → find_profile p.id ps ≡ none
    → IsDistinct ps
    → IsDistinct (ps ++ (p ∷ []))
unfolding IsDistinct
append-IsDistinct p [] h d = (refl, tt)
append-IsDistinct p (q ∷ ps) h d =
    let (n, k) = absent-cons p.id q ps h in
    (
      find_profile-append q.id p ps (differs_from q.id q.id p.id (same_text_refl q.id) n) ∙ d.0,
      append-IsDistinct p ps k (d.1),
    )

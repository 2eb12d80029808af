-- ===== src/Destination/SourceRepository.antt =====
-- The parts of a repository of SOURCE put together again.
use mathlib.Core.Path.{subst}
use harbor_transfer_portal.Base.{
  ==_iff, Bool-cases, List, [], all, and_true_iff, ap, false, inl, inr, negated_iff, not,
  or_neither, refl, some, sym, true, ℕ, ◌==◌, ◌||◌, ◌∙◌, ◌∷◌, ◌≡◌,
}
use harbor_transfer_portal.Bundle.Text.{Text, cons_first, is_empty, join, split}
use harbor_transfer_portal.Destination.Artifact.{target_repository_of}
use harbor_transfer_portal.Destination.Coordinates.{
  is_bad_repository, split_project, validated_source_repository,
}
use harbor_transfer_portal.Destination.Patterns.{is_component, is_component_from}

split-first : (c : ℕ) (s : Text) → (t : Text) × ((ts : List Text) × (split c s ≡ t ∷ ts))
split-first c [] = ([], ([], refl))
split-first c (d ∷ s) = elim (Bool-cases (d == c)) [
  | inl e ↦ ([], (split c s, rw e refl))
  | inr e ↦ let (t, (ts, h)) = split-first c s in (d ∷ t, (ts, rw e (ap (λ r. cons_first d r) h)))
]

join-cons_first : (c d : ℕ) (ts : List Text) → join c (cons_first d ts) ≡ d ∷ join c ts
join-cons_first c d [] = refl
join-cons_first c d (t ∷ []) = refl
join-cons_first c d (t ∷ (u ∷ ts)) = refl

join_after :
    (c : ℕ) (rest ts : List Text) (t : Text) → rest ≡ t ∷ ts → join c ([] ∷ rest) ≡ c ∷ join c rest
join_after c [] ts t h = cc
join_after c (u ∷ us) ts t h = refl

join-split : (c : ℕ) (s : Text) → join c (split c s) ≡ s
join-split c [] = refl
join-split c (d ∷ s) = elim (Bool-cases (d == c)) [
  | inl e ↦
      let (t, (ts, h)) = split-first c s in
      let same : d ≡ c = (==_iff d c).0 e in
      rw e (
        join_after c (split c s) ts t h
        ∙ ap (λ r. c ∷ r) (join-split c s)
        ∙ ap (λ x. x ∷ s) (sym same))
  | inr e ↦ rw e (join-cons_first c d (split c s) ∙ ap (λ r. d ∷ r) (join-split c s))
]

join_nonempty : (c d : ℕ) (t : Text) (ts : List Text) → is_empty (join c ((d ∷ t) ∷ ts)) ≡ false
join_nonempty c d t [] = refl
join_nonempty c d t (u ∷ ts) = refl

rejoined :
    (ts : List Text)
    → all is_component ts ≡ true
    → (t : Text) → target_repository_of t (join 47 ts) ≡ join 47 (t ∷ ts)
unfolding target_repository_of is_component is_component_from
rejoined [] h t = refl
rejoined ([] ∷ ts) h t = cc
rejoined ((d ∷ u) ∷ ts) h t = rw (join_nonempty 47 d u ts) refl

split_again :
    (ts : List Text)
    → all is_component ts ≡ true
    → target_repository_of ((split_project ts).0) ((split_project ts).1) ≡ join 47 ts
unfolding target_repository_of
split_again [] h = refl
split_again (t ∷ ts) h =
    rejoined ts (((and_true_iff (is_component t) (all is_component ts)).0 h).1) t

-- The project and the suffix of a valid repository, put together as a repository of TARGET is, are
-- the repository.
pub target_repository_of-validated_source_repository :
    (repository : Text) (parts : Text × Text)
    → validated_source_repository repository ≡ some parts
    → target_repository_of (parts.0) (parts.1) ≡ repository
unfolding validated_source_repository
target_repository_of-validated_source_repository repository parts h =
    elim (Bool-cases
      (is_bad_repository repository || not (all is_component (split 47 repository)))) [
        | inl e ↦ let x = rw e at h in cc
        | inr e ↦
            let x : some (split_project (split 47 repository)) ≡ some parts = rw e at h in
            let y : split_project (split 47 repository) ≡ parts = cc in
            let (b, n) =
              or_neither (is_bad_repository repository)
                (not (all is_component (split 47 repository))) e in
            let a = (negated_iff (all is_component (split 47 repository))).0 n in
            subst (λ p. target_repository_of (p.0) (p.1) ≡ repository) y
              (split_again (split 47 repository) a ∙ join-split 47 repository)
      ]

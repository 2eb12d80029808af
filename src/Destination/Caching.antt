-- ===== src/Destination/Caching.antt =====
-- A destination validator says what Harbor says, whatever it has asked before.
use mathlib.Core.Path.{subst}
use harbor_transfer_portal.Base.{
  All, Bool, Bool-cases, List, Option, [], ap, err, false, inl, inr, none, ok, refl, some, sym,
  true, ◌∙◌, ◌∷◌, ◌≡◌,
}
use harbor_transfer_portal.Bundle.Text.{Text, same_text, same_text_iff}
use harbor_transfer_portal.Destination.Granted.{IsGranted}
use harbor_transfer_portal.Destination.Writable.{capability_of-IsGranted}
use harbor_transfer_portal.Destination.Validator.{
  Answer, Caches, HarborApi, answered, ask_project, ask_push, cached, capability_of, kept_answer,
  project_exists, push_capability, repository_push_allowed, validated, without_cache, validate,
}

-- Every entry is what Harbor answers to its key.
unfoldable pub AreAnswers : (Text → Answer Bool) → List (Text × Bool) → Type 0
AreAnswers ask entries = All (λ e. ask (e.0) ≡ ok (e.1)) entries

cached-answer :
    (ask : Text → Answer Bool) (key : Text) (entries : List (Text × Bool)) {b : Bool}
    → AreAnswers ask entries
    → cached key entries ≡ some b
    → ask key ≡ ok b
unfolding AreAnswers
cached-answer ask key [] a h = cc
cached-answer ask key (e ∷ es) {b = b} a h = elim (Bool-cases (same_text (e.0) key)) [
  | inl q ↦
      let p = (same_text_iff (e.0) key).0 q in
      let x : some (e.1) ≡ some b = rw q at h in
      subst (λ k. ask k ≡ ok (e.1)) p (a.0)
      ∙ ap (λ o. elim o [ none ↦ err none | some found ↦ ok found ]) x
  | inr q ↦ cached-answer ask key es (a.1) (rw q at h)
]

-- What `answered` gives is what Harbor answers, and it keeps nothing else.
record IsAnswer (ask : Text → Answer Bool) (key : Text) (r : Answer Bool × List (Text × Bool))
    : Type 0 where
  same_answer : r.0 ≡ ask key
  entries : AreAnswers ask (r.1)

kept_answer-IsAnswer :
    (ask : Text → Answer Bool) (key : Text) (entries : List (Text × Bool)) (fresh : Answer Bool)
    → fresh ≡ ask key
    → AreAnswers ask entries
    → IsAnswer ask key (kept_answer key entries fresh)
unfolding AreAnswers
kept_answer-IsAnswer ask key entries (ok b) h a = record { same_answer = h; entries = (sym h, a) }
kept_answer-IsAnswer ask key entries (err e) h a = record { same_answer = h; entries = a }

answered-IsAnswer :
    (ask : Text → Answer Bool) (key : Text) (entries : List (Text × Bool)) (o : Option Bool)
    → cached key entries ≡ o
    → AreAnswers ask entries
    → IsAnswer ask key (answered key entries (ask key) o)
answered-IsAnswer ask key entries (some b) h a = record {
  same_answer = sym (cached-answer ask key entries a h);
  entries = a;
}
answered-IsAnswer ask key entries none h a = kept_answer-IsAnswer ask key entries (ask key) refl a

-- The caches of a validator hold answers of Harbor.
pub record AreFresh (api : HarborApi) (caches : Caches) : Type 0 where
  pub projects : AreAnswers (ask_project api) caches.projects
  pub writes : AreAnswers (ask_push api) caches.writes

capability_of-known :
    (api : HarborApi) (project repository : Text)
    → capability_of api project repository ≡ without_cache api repository (ask_project api project)
unfolding capability_of
capability_of-known api project repository = refl

module _ (api : HarborApi) (caches : Caches) (fresh : AreFresh api caches) (repository : Text) where
  push-IsAnswer :
      IsAnswer (ask_push api) repository (repository_push_allowed api caches.writes repository)
  unfolding repository_push_allowed
  push-IsAnswer =
      answered-IsAnswer (ask_push api) repository caches.writes (cached repository caches.writes)
        refl fresh.writes

  validated-fresh :
      (answer asked : Answer Bool) (entries : List (Text × Bool))
      → answer ≡ asked
      → AreAnswers (ask_project api) entries
      → ((validated api caches repository (answer, entries)).0 ≡ without_cache api repository asked)
        × AreFresh api ((validated api caches repository (answer, entries)).1)
  validated-fresh (err e) asked entries h a =
      (ap (without_cache api repository) h, record { projects = a; writes = fresh.writes })
  validated-fresh (ok false) asked entries h a =
      (ap (without_cache api repository) h, record { projects = a; writes = fresh.writes })
  validated-fresh (ok true) asked entries h a = (
    ap push_capability push-IsAnswer.same_answer ∙ ap (without_cache api repository) h,
    record { projects = a; writes = push-IsAnswer.entries },
  )

  -- A validation gives the same capability as without its caches, on every branch, keeps only what
  -- Harbor answered, and lets write only if Harbor lists the project and grants the push in a token.
  pub validate-AreFresh :
      (project : Text)
      → ((validate api caches project repository).0 ≡ capability_of api project repository)
        × AreFresh api ((validate api caches project repository).1)
        × ((validate api caches project repository).0.write_allowed ≡ true
            → IsGranted api project repository)
  unfolding validate project_exists
  validate-AreFresh project =
      let p =
        answered-IsAnswer (ask_project api) project caches.projects (cached project caches.projects)
          refl fresh.projects in
      let r =
        answered project caches.projects (ask_project api project)
          (cached project caches.projects) in
      let (same, kept) =
        validated-fresh (r.0) (ask_project api project) (r.1) p.same_answer p.entries in
      let uncached = same ∙ sym (capability_of-known api project repository) in
      (
        uncached,
        kept,
        λ h.
            capability_of-IsGranted api repository project
              (subst (λ c. c.write_allowed ≡ true) uncached h),
      )

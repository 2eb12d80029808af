-- ===== src/Domain/Transitions/Lifecycle.antt =====
-- What the transition tables say of a whole life of an operation.
use harbor_transfer_portal.Base.{
  ◌≡◌, refl, ◌↔◌, ◌⊎◌, inl, inr, Option, none, some, List, [], ◌∷◌, Result-cases, ok, err, arith,
  true,
}
use harbor_transfer_portal.Domain.Status.{
  OperationType, export, import, OperationStatus, created, validating, running, packaging,
  verifying, uploaded, discovered, ready, importing, verifying_target, completed, failed, rejected,
  cancelled, status_in,
}
use harbor_transfer_portal.Domain.Transitions.{validate_transition, terminal_states, terminal_state}

-- The statuses that an operation of each type passes through on the way to `completed`.
abbrev pub next_phase : OperationType → OperationStatus → Option OperationStatus
next_phase export created = some validating
next_phase export validating = some running
next_phase export running = some packaging
next_phase export packaging = some verifying
next_phase export verifying = some completed
next_phase import uploaded = some verifying
next_phase import discovered = some verifying
next_phase import verifying = some ready
next_phase import ready = some importing
next_phase import importing = some verifying_target
next_phase import verifying_target = some completed
next_phase _ _ = none

-- The diagram of the protocol, written without the tables.
pub data Edge (k : OperationType) (s : OperationStatus) : OperationStatus → Type 0 where
  advance : {t : OperationStatus} → next_phase k s ≡ some t → Edge k s t
  fail : {t : OperationStatus} → next_phase k s ≡ some t → Edge k s failed
  cancel : {t : OperationStatus} → next_phase k s ≡ some t → Edge k s cancelled
  reject : k ≡ import → (s ≡ uploaded) ⊎ (s ≡ discovered) ⊎ (s ≡ verifying) → Edge k s rejected

Edge-accepted :
    {k : OperationType} {s t : OperationStatus} → Edge k s t → validate_transition k s t ≡ ok tt
unfolding validate_transition
Edge-accepted (advance e) = ground arith
Edge-accepted (fail e) = ground arith
Edge-accepted (cancel e) = ground arith
Edge-accepted (reject e f) = ground arith

accepted-Edge :
    (k : OperationType) (s t : OperationStatus) → validate_transition k s t ≡ ok tt → Edge k s t
unfolding validate_transition
accepted-Edge k s t h = grind (arith, advance, fail, cancel, reject)

-- A transition is accepted exactly when the diagram has that edge.
pub validate_transition-iff-Edge :
    (k : OperationType) (s t : OperationStatus) → (validate_transition k s t ≡ ok tt) ↔ Edge k s t
validate_transition-iff-Edge k s t = (accepted-Edge k s t, Edge-accepted)

-- The phases that are left before `completed`.
abbrev pub path_from : OperationType → OperationStatus → List OperationStatus
path_from export created = validating ∷ running ∷ packaging ∷ verifying ∷ completed ∷ []
path_from export validating = running ∷ packaging ∷ verifying ∷ completed ∷ []
path_from export running = packaging ∷ verifying ∷ completed ∷ []
path_from export packaging = verifying ∷ completed ∷ []
path_from export verifying = completed ∷ []
path_from import uploaded = verifying ∷ ready ∷ importing ∷ verifying_target ∷ completed ∷ []
path_from import discovered = verifying ∷ ready ∷ importing ∷ verifying_target ∷ completed ∷ []
path_from import verifying = ready ∷ importing ∷ verifying_target ∷ completed ∷ []
path_from import ready = importing ∷ verifying_target ∷ completed ∷ []
path_from import importing = verifying_target ∷ completed ∷ []
path_from import verifying_target = completed ∷ []
path_from _ _ = []

-- `validate_transition` before each of the statuses in turn; `none` when one of them raises.
unfoldable pub walk :
    OperationType → OperationStatus → List OperationStatus → Option OperationStatus
walk k s [] = some s
walk k s (t ∷ ts) = elim (validate_transition k s t) [ ok _ ↦ walk k t ts | err _ ↦ none ]

next_or_stop :
    (k : OperationType) (s t : OperationStatus)
    → validate_transition k s t ≡ ok tt
    → (t ≡ failed) ⊎ (t ≡ rejected) ⊎ (t ≡ cancelled) ⊎ (path_from k s ≡ t ∷ path_from k t)
unfolding validate_transition
next_or_stop k s t h = ground arith

-- No transition leaves a terminal status.
pub terminal_refused :
    (k : OperationType) (s t : OperationStatus)
    → status_in s terminal_states ≡ true
    → validate_transition k s t ≡ err (terminal_state s t)
unfolding validate_transition
terminal_refused k s t h = ground arith

walk_terminal :
    (k : OperationType) (s : OperationStatus) (ts : List OperationStatus)
    → status_in s terminal_states ≡ true
    → walk k s ts ≡ some completed
    → (s ≡ completed) × (ts ≡ [])
unfolding walk
walk_terminal k s [] h w = (ground arith, refl)
walk_terminal k s (t ∷ ts) h w = ground (arith, terminal_refused k s t h)

-- An accepted life that ends in `completed` went through every remaining phase, in order, and
-- through nothing else, from whatever status it started.
pub walk_completed :
    (k : OperationType) (s : OperationStatus) (ts : List OperationStatus)
    → walk k s ts ≡ some completed
    → ts ≡ path_from k s
unfolding walk
walk_completed k s [] h = ground arith
walk_completed k s (t ∷ ts) h = elim (Result-cases (validate_transition k s t)) [
  | inr (e, refused) ↦ absurd (ground (arith, refused))
  | inl (u, accepted) ↦
      let w : walk k t ts ≡ some completed = rw (accepted, walk) at h in
      ground (
        arith,
        next_or_stop k s t accepted,
        walk_completed k t ts w,
        λ (q : status_in t terminal_states ≡ true). walk_terminal k t ts q w,
      )
]

-- A walk from a terminal status stays there.
pub walk_ended :
    (k : OperationType) (s : OperationStatus) (ts : List OperationStatus) {t : OperationStatus}
    → status_in s terminal_states ≡ true
    → walk k s ts ≡ some t
    → t ≡ s
unfolding walk
walk_ended k s [] h w = cc
walk_ended k s (x ∷ ts) {t} h w =
    absurd (ground (arith, (rw (terminal_refused k s x h, walk) at w)))

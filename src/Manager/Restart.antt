-- ===== src/Manager/Restart.antt =====
-- What the table is after a restart.
pub mod Idle
use harbor_transfer_portal.Base.{
  ℕ, ◌≡◌, refl, List, [], ◌∷◌, map, Bool, true, false, not, ◌&&◌, ◌||◌, ok, inl, inr, Bool-cases,
  arith, String, none, is_some, if◌then◌else◌, All, count, sym, ◌<◌,
}
use harbor_transfer_portal.Domain.Status.{
  OperationStatus, ArtifactStatus, cancelled, failed, ready, same_status, same_artifact_status,
  status_in, same_status_iff,
}
use harbor_transfer_portal.Domain.Transitions.{terminal_states}
use mathlib.Core.Path.{subst, ap₂}
use harbor_transfer_portal.Manager.Consistency.{IsConsistent, Distinct}
use harbor_transfer_portal.Manager.Table.{ids}
use harbor_transfer_portal.Manager.Model.{ArtifactResult, Operation, Db, check_transition}
use harbor_transfer_portal.Manager.Artifacts.{
  tally, fail_if_running, fail_running_artifacts, recalculate_counts,
}
use harbor_transfer_portal.Manager.Service.{stopped, unclaimed}
use harbor_transfer_portal.Manager.Recovery.{
  interrupted, reconcile_one, reconcile, reconcile_interrupted_operations, active_execution_states,
  cancelled_row, failed_row,
}
use harbor_transfer_portal.Manager.Soundness.{
  IsSound, IsSound-touched, stopped-IsSound, stop_allowed, recalculated-IsSound,
}

abbrev pub Forall₂ : (Operation → Operation → Type 0) → List Operation → List Operation → Type 0
Forall₂ R [] [] = Unit
Forall₂ R (x ∷ xs) (y ∷ ys) = R x y × Forall₂ R xs ys
Forall₂ R _ _ = ⊥

-- Where a restart leaves an interrupted operation.
abbrev pub settles_to : Operation → OperationStatus
settles_to op =
    if status_in op.status terminal_states
    then op.status
    else if is_some op.cancel_requested_at
    then cancelled
    else if same_status op.status ready
    then ready
    else failed

-- Whether the restart stops it.
abbrev pub is_stopped : Operation → Bool
is_stopped op =
    not (status_in op.status terminal_states)
    && (is_some op.cancel_requested_at || not (same_status op.status ready))

-- How an interrupted row relates to the row after the restart.
pub record Recovered (op op' : Operation) : Type 0 where
  pub same_id : op'.id ≡ op.id
  pub same_type : op'.type ≡ op.type
  pub status : op'.status ≡ settles_to op
  pub free : op'.worker_token ≡ none
  pub sound : IsSound op'
  pub none_running : is_stopped op ≡ true → tally ArtifactStatus.running op'.artifacts ≡ 0

-- What a restart does to each row.
abbrev pub Settled : Operation → Operation → Type 0
Settled op op' = (interrupted op ≡ false → op' ≡ op) × (interrupted op ≡ true → Recovered op op')

pub tally_running-fail :
    (code message : String) (now : ℕ) (rows : List ArtifactResult)
    → tally ArtifactStatus.running (map (fail_if_running code message now) rows) ≡ 0
unfolding fail_if_running
tally_running-fail code message now [] = refl
tally_running-fail code message now (row ∷ rows) =
    elim (Bool-cases (same_artifact_status row.status ArtifactStatus.running)) [
      | inl r ↦ rw r (tally_running-fail code message now rows)
      | inr r ↦ rw r (rw r (tally_running-fail code message now rows))
    ]

stopped-Recovered :
    (op : Operation) (target : OperationStatus) (code message artifact_message : String) (now : ℕ)
    → IsSound op
    → status_in target terminal_states ≡ true
    → check_transition op.type op.status target ≡ ok tt
    → target ≡ settles_to op
    → Recovered op (unclaimed (stopped target code message artifact_message now op))
unfolding stopped recalculate_counts fail_running_artifacts
stopped-Recovered op target code message artifact_message now h t e s = record {
  same_id = refl;
  same_type = refl;
  status = s;
  free = refl;
  sound =
      IsSound-touched (stopped target code message artifact_message now op) _
        (stopped-IsSound op target code message artifact_message now h t e) refl;
  none_running = λ _. tally_running-fail code artifact_message now op.artifacts;
}

waiting-Recovered :
    (op : Operation)
    → IsSound op
    → op.status ≡ ready
    → is_some op.cancel_requested_at ≡ false
    → Recovered op (recalculate_counts (unclaimed op))
unfolding recalculate_counts
waiting-Recovered op h waits alone = record {
  same_id = refl;
  same_type = refl;
  status = ground arith;
  free = refl;
  sound = recalculated-IsSound op (unclaimed op) h refl refl refl refl refl h.progress;
  none_running = λ s. absurd (ground arith);
}

pub reconcile_one-Recovered :
    (now : ℕ) (op : Operation)
    → IsSound op
    → (op' : Operation) × (reconcile_one now op ≡ ok (op', is_stopped op)) × Recovered op op'
unfolding reconcile_one cancelled_row failed_row
reconcile_one-Recovered now op h = elim (Bool-cases (status_in op.status terminal_states)) [
  | inl ended ↦ (
    unclaimed op,
    rw ended,
    record {
      same_id = refl;
      same_type = refl;
      status = rw ended;
      free = refl;
      sound = IsSound-touched op _ h refl;
      none_running = λ s. absurd (ground (arith, s, ended));
    },
  )
  | inr live ↦
      let can = stop_allowed op.type op.status h.on_route live in
      elim (Bool-cases (is_some op.cancel_requested_at)) [
        | inl asked ↦ (
          cancelled_row now op,
          rw live (rw asked (rw can.1)),
          stopped-Recovered op cancelled _ _ _ now h refl can.1 (rw live (rw asked)),
        )
        | inr alone ↦ elim (Bool-cases (same_status op.status ready)) [
          | inl waits ↦ (
            recalculate_counts (unclaimed op),
            rw live (rw alone (rw waits)),
            waiting-Recovered op h ((same_status_iff op.status ready).0 waits) alone,
          )
          | inr runs ↦ (
            failed_row now op,
            rw live (rw alone (rw runs (rw can.0))),
            stopped-Recovered op failed _ _ _ now h refl can.0 (rw live (rw alone (rw runs))),
          )
        ]
      ]
]

-- The restart of a sound table never raises. It settles each interrupted row, leaves the others
-- as they are, and counts the rows that it stopped.
reconcile_lem :
    (now : ℕ) (ops : List Operation)
    → All IsSound ops
    → (ops' : List Operation) × (cleaned : List ℕ) × (reconcile now ops
        ≡ ok (ops', count (λ op. interrupted op && is_stopped op) ops, cleaned))
      × Forall₂ Settled ops ops'
unfolding reconcile
reconcile_lem now [] h = ([], [], refl, tt)
reconcile_lem now (op ∷ ops) h =
    let (rest, cleaned, e, f) = reconcile_lem now ops h.1 in
    elim (Bool-cases (interrupted op)) [
      | inr calm ↦ (op ∷ rest, cleaned, rw (calm, reconcile) (rw e), (((λ _. refl), (λ i. cc)), f))
      | inl hit ↦
          let (op', one, r) = reconcile_one-Recovered now op h.0 in
          (
            op' ∷ rest,
            (if is_stopped op then op.id ∷ cleaned else cleaned),
            rw (hit, reconcile) (rw one (rw e)),
            (((λ i. cc), (λ _. r)), f),
          )
    ]

Settled-IsSound :
    (op op' : Operation) → Settled op op' → IsSound op → (op'.id ≡ op.id) × IsSound op'
Settled-IsSound op op' s h = elim (Bool-cases (interrupted op)) [
  | inl hit ↦ ((s.1 hit).same_id, (s.1 hit).sound)
  | inr calm ↦ let e : op' ≡ op = s.0 calm in rw e (refl, h)
]

Forall₂-IsSound :
    (ops ops' : List Operation)
    → Forall₂ Settled ops ops'
    → All IsSound ops
    → (ids ops' ≡ ids ops) × All IsSound ops'
Forall₂-IsSound [] [] f h = (refl, tt)
Forall₂-IsSound [] (op' ∷ ops') f h = absurd f
Forall₂-IsSound (op ∷ ops) [] f h = absurd f
Forall₂-IsSound (op ∷ ops) (op' ∷ ops') f h =
    let (i, s) = Settled-IsSound op op' f.0 h.0 in
    let (is, ss) = Forall₂-IsSound ops ops' f.1 h.1 in (ap₂ ◌∷◌ i is, (s, ss))

-- On a consistent table the recovery at startup never raises. Every row that no worker held and
-- that was in no execution state is as it was; every other row keeps its key and type, has no
-- worker, and is in the status `settles_to`: its own if it had ended, `cancelled` if its
-- cancellation was asked for, `ready` if it was ready, and `failed` otherwise, with no artifact
-- left running if it was stopped. The result counts the stopped rows, and the table is consistent.
pub restart_settles :
    (now : ℕ) (db : Db)
    → IsConsistent db
    → (db' : Db) × (reconcile_interrupted_operations now db
        ≡ ok (count (λ op. interrupted op && is_stopped op) db.operations, db'))
      × Forall₂ Settled db.operations db'.operations
      × IsConsistent db'
unfolding reconcile_interrupted_operations
restart_settles now db h =
    let (ops', cleaned, e, f) = reconcile_lem now db.operations h.rows in
    let (same, sound) = Forall₂-IsSound db.operations ops' f h.rows in
    (
      record db { operations = ops' },
      rw e,
      f,
      record {
        rows = sound;
        distinct = subst Distinct (sym same) h.distinct;
        fresh = subst (All (λ n. n < db.next_operation_id)) (sym same) h.fresh;
      },
    )

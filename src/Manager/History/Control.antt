-- ===== src/Manager/History/Control.antt =====
-- The same of the manager's own transactions.
use harbor_transfer_portal.Manager.Restart.{Forall₂}
use mathlib.Core.Path.{subst}
use harbor_transfer_portal.Base.{All, [], arith, false, some, sym, ◌<◌, ◌==◌, ◌∷◌, ◌⊎◌}
use harbor_transfer_portal.Domain.Status.{same_status_iff}
use harbor_transfer_portal.Domain.Transitions.{validate_transition}
use harbor_transfer_portal.Manager.History.{Follows-refl}
use harbor_transfer_portal.Manager.Recovery.{interrupted}
use harbor_transfer_portal.Manager.Restart.{Settled, restart_settles, settles_to}
use harbor_transfer_portal.Manager.Soundness.{IsSound, stop_allowed}
use harbor_transfer_portal.Manager.Table.{find_operation-All-ids}
use harbor_transfer_portal.Base.{
  Bool, Bool-cases, Ensures, Ensures-then, List, Option, Option-cases, String, if◌then◌else◌, inl,
  inr, is_some, ok, or_else, refl, refuse_if, ℕ, ◌||◌, ◌≡◌,
}
use harbor_transfer_portal.Domain.Status.{
  OperationStatus, OperationType, cancelled, created, failed, is_export, ready, same_status,
  status_in, uploaded,
}
use harbor_transfer_portal.Domain.Transitions.{terminal_states}
use harbor_transfer_portal.Manager.Artifacts.{fail_running_artifacts, recalculate_counts}
use harbor_transfer_portal.Manager.Consistency.{IsConsistent}
use harbor_transfer_portal.Manager.Context.{holds_token}
use harbor_transfer_portal.Manager.History.{
  Follows, Moved, Moved-refl, checked_step, save-Moved, touched,
}
use harbor_transfer_portal.Manager.Model.{
  Db, Operation, OperationDetails, check_transition, find_operation,
}
use harbor_transfer_portal.Manager.Recovery.{reconcile_interrupted_operations}
use harbor_transfer_portal.Manager.Service.{
  OperationArtifactSpec, claim_worker, claimable, create_operation, delivery_taken,
  handle_shutdown_interruption, mark_cancelled, mark_failed, new_operation, release_worker,
  request_cancel, stop_row, stopped, validate_initial_status,
}

pub claim_worker-Moved :
    (id : ℕ) (token : String) (now : ℕ) (db : Db)
    → Ensures (Moved db) (claim_worker id token now db)
unfolding claim_worker
claim_worker-Moved id token now db = elim (Option-cases (find_operation id db.operations)) [
  | inl e ↦ rw e tt
  | inr (op, e) ↦ rw e (elim (Bool-cases (claimable op)) [
    | inl free ↦ rw free (save-Moved id op _ db e (touched op _ refl refl refl))
    | inr taken ↦ rw taken (elim (Bool-cases (status_in op.status terminal_states)) [
      | inl t ↦ rw t tt
      | inr t ↦
          rw t (elim (Bool-cases (is_some op.cancel_requested_at)) [
            | inl c ↦ rw c tt
            | inr c ↦ rw c tt
          ])
    ])
  ])
]

pub release_worker-Moved :
    (id : ℕ) (token : String) (db : Db) → Moved db (release_worker id token db)
unfolding release_worker
release_worker-Moved id token db = elim (Option-cases (find_operation id db.operations)) [
  | inl e ↦ rw e (Moved-refl db)
  | inr (op, e) ↦ rw e (elim (Bool-cases (holds_token op.worker_token token)) [
    | inl mine ↦ rw mine (save-Moved id op _ db e (touched op _ refl refl refl))
    | inr other ↦ rw other (Moved-refl db)
  ])
]

pub request_cancel-Moved : (id now : ℕ) (db : Db) → Ensures (Moved db) (request_cancel id now db)
unfolding request_cancel
request_cancel-Moved id now db = elim (Option-cases (find_operation id db.operations)) [
  | inl e ↦ rw e tt
  | inr (op, e) ↦ rw e (elim (Bool-cases (status_in op.status terminal_states)) [
    | inl ended ↦ rw ended (Moved-refl db)
    | inr live ↦ rw live (save-Moved id op _ db e (touched op _ refl refl refl))
  ])
]

stopped-Follows :
    (op : Operation) (target : OperationStatus) (code message artifact_message : String) (now : ℕ)
    → check_transition op.type op.status target ≡ ok tt
    → Follows op (stopped target code message artifact_message now op)
unfolding stopped recalculate_counts fail_running_artifacts
stopped-Follows op target code message artifact_message now t = record {
  same_id = refl;
  same_type = refl;
  step = inr (checked_step _ _ _ t);
}

pub stop_row-Moved :
    (target : OperationStatus) (code message artifact_message : String) (now id : ℕ) (db : Db)
    → Ensures
        (Moved db)
        (stop_row target code message artifact_message now (find_operation id db.operations) db)
stop_row-Moved target code message artifact_message now id db =
    elim (Option-cases (find_operation id db.operations)) [
      | inl e ↦ rw e (Moved-refl db)
      | inr (op, e) ↦ rw e (elim (Bool-cases (status_in op.status terminal_states)) [
        | inl ended ↦ rw ended (Moved-refl db)
        | inr live ↦ rw live (
            Ensures-then (Moved db) (check_transition op.type op.status target) _
              λ t. save-Moved id op _ db e (stopped-Follows op target _ _ _ now t))
      ])
    ]

pub mark_cancelled-Moved : (id now : ℕ) (db : Db) → Ensures (Moved db) (mark_cancelled id now db)
unfolding mark_cancelled
mark_cancelled-Moved id now db = stop_row-Moved cancelled _ _ _ now id db

pub mark_failed-Moved :
    (id : ℕ) (code message : String) (now : ℕ) (db : Db)
    → Ensures (Moved db) (mark_failed id code message now db)
unfolding mark_failed
mark_failed-Moved id code message now db = stop_row-Moved failed code message message now id db

pub shutdown-Moved :
    (id now : ℕ) (db : Db)
    → Ensures (λ (r : Bool × Db). Moved db r.1) (handle_shutdown_interruption id now db)
unfolding handle_shutdown_interruption
shutdown-Moved id now db = elim (Option-cases (find_operation id db.operations)) [
  | inl e ↦ rw e (Moved-refl db)
  | inr (op, e) ↦
      rw e (elim (Bool-cases (status_in op.status terminal_states || same_status op.status ready)) [
        | inl quiet ↦ rw quiet (Moved-refl db)
        | inr busy ↦ rw busy (
            Ensures-then (λ (r : Bool × Db). Moved db r.1)
              (check_transition op.type op.status failed) _
              λ t. save-Moved id op _ db e (stopped-Follows op failed _ _ _ now t))
      ])
]

pub create_operation-Moved :
    (k : OperationType) (initial_status : Option OperationStatus) (details : OperationDetails)
    (specs : List OperationArtifactSpec) (db : Db)
    → IsConsistent db
    → Ensures (λ (r : ℕ × Db). Moved db r.1) (create_operation k initial_status details specs db)
unfolding create_operation new_operation
create_operation-Moved k initial_status details specs db h =
    let status = or_else initial_status (if is_export k then created else uploaded) in
    let P : ℕ × Db → Type 0 = λ r. Moved db r.1 in
    Ensures-then P (validate_initial_status k status) _ λ v.
      Ensures-then P (refuse_if (delivery_taken details.delivery_id db.operations) _) _ λ _ id op e.
        (
          op,
          (let below : id < db.next_operation_id =
                find_operation-All-ids (λ n. n < db.next_operation_id) id db.operations op h.fresh
                  e in
              let other : (db.next_operation_id == id) ≡ false = ground arith in rw other e),
          Follows-refl op,
        )

settles_to-step :
    (op : Operation)
    → IsSound op
    → (settles_to op ≡ op.status) ⊎ (validate_transition op.type op.status (settles_to op) ≡ ok tt)
settles_to-step op h = elim (Bool-cases (status_in op.status terminal_states)) [
  | inl ended ↦ rw ended (inl refl)
  | inr live ↦
      let can = stop_allowed op.type op.status h.on_route live in
      elim (Bool-cases (is_some op.cancel_requested_at)) [
        | inl asked ↦ inr (rw live (rw asked (checked_step _ _ _ can.1)))
        | inr alone ↦ elim (Bool-cases (same_status op.status ready)) [
          | inl waits ↦
              inl (rw live (rw alone (rw waits (sym ((same_status_iff op.status ready).0 waits)))))
          | inr runs ↦ inr (rw live (rw alone (rw runs (checked_step _ _ _ can.0))))
        ]
      ]
]

Settled-Follows : (op op' : Operation) → IsSound op → Settled op op' → Follows op op'
Settled-Follows op op' h s = elim (Bool-cases (interrupted op)) [
  | inl hit ↦
      let r = s.1 hit in
      record {
        same_id = r.same_id;
        same_type = r.same_type;
        step = rw r.status (settles_to-step op h);
      }
  | inr calm ↦ let e : op' ≡ op = s.0 calm in rw e (Follows-refl op)
]

Settled-find :
    (ops ops' : List Operation) (id : ℕ) (op : Operation)
    → All IsSound ops
    → Forall₂ Settled ops ops'
    → find_operation id ops ≡ some op
    → (op' : Operation) × (find_operation id ops' ≡ some op') × Follows op op'
Settled-find [] ops' id op h f e = cc
Settled-find (o ∷ os) [] id op h f e = absurd f
Settled-find (o ∷ os) (o' ∷ os') id op h f e =
    let fo = Settled-Follows o o' h.0 f.0 in
    elim (Bool-cases (o.id == id)) [
      | inl hit ↦
          let q : some o ≡ some op = rw hit at e in
          let p : o ≡ op = cc in (o', rw fo.same_id (rw hit), rw (← p) fo)
      | inr miss ↦
          let (op', found, g) = Settled-find os os' id op h.1 f.1 (rw miss at e) in
          (op', rw fo.same_id (rw miss found), g)
    ]

pub reconcile-Moved :
    (now n : ℕ) (db db' : Db)
    → IsConsistent db
    → reconcile_interrupted_operations now db ≡ ok (n, db')
    → Moved db db' × IsConsistent db'
reconcile-Moved now n db db' h e =
    let (db'', e', f, c) = restart_settles now db h in
    let same : db'' ≡ db' = cc (e, e') in
    (
      subst (λ d. Moved db d) same
          (λ id op found. Settled-find db.operations db''.operations id op h.rows f found),
      subst IsConsistent same c,
    )

-- ===== src/Manager/Consistency/Control.antt =====
-- The transactions by which the manager claims, releases, cancels and fails operations.
use harbor_transfer_portal.Base.{
  ℕ, ◌≡◌, refl, Bool, Bool-cases, true, is_some, ok, Ensures, Ensures-then, some, String, inl, inr,
  Option-cases, ◌||◌, ◌⊎◌,
}
use harbor_transfer_portal.Domain.Status.{
  OperationStatus, failed, cancelled, ready, status_in, same_status,
}
use harbor_transfer_portal.Domain.Transitions.{terminal_states}
use harbor_transfer_portal.Manager.Model.{Operation, Db, find_operation, check_transition}
use harbor_transfer_portal.Manager.Context.{holds_token}
use harbor_transfer_portal.Manager.Service.{
  claim_worker, release_worker, request_cancel, mark_cancelled, mark_failed,
  handle_shutdown_interruption, claim, claimable, stop_row,
}
use harbor_transfer_portal.Manager.Table.{All-find_operation}
use harbor_transfer_portal.Manager.Soundness.{
  IsSound, stopped-IsSound, stop_allowed, IsSound-touched,
}
use harbor_transfer_portal.Manager.Consistency.{IsConsistent, save-IsConsistent}

pub found-IsSound :
    (id : ℕ) (db : Db) (op : Operation)
    → IsConsistent db
    → find_operation id db.operations ≡ some op
    → IsSound op
found-IsSound id db op h e = All-find_operation IsSound id db.operations op h.rows e

pub claim_worker-IsConsistent :
    (id : ℕ) (token : String) (now : ℕ) (db : Db)
    → IsConsistent db
    → Ensures IsConsistent (claim_worker id token now db)
unfolding claim_worker
claim_worker-IsConsistent id token now db h =
    elim (Option-cases (find_operation id db.operations)) [
      | inl e ↦ rw e tt
      | inr (op, e) ↦ rw e (claimed op (found-IsSound id db op h e))
    ]
  where
    claimed : (op : Operation) → IsSound op → Ensures IsConsistent (claim token now (some op) db)
    claimed op s = elim (Bool-cases (claimable op)) [
      | inl free ↦ rw free (save-IsConsistent _ db h (IsSound-touched op _ s refl))
      | inr taken ↦ rw taken (elim (Bool-cases (status_in op.status terminal_states)) [
        | inl e ↦ rw e tt
        | inr e ↦ rw e (elim (Bool-cases (is_some op.cancel_requested_at)) [
          | inl c ↦ rw c tt
          | inr c ↦ rw c tt
        ])
      ])
    ]

pub release_worker-IsConsistent :
    (id : ℕ) (token : String) (db : Db)
    → IsConsistent db
    → IsConsistent (release_worker id token db)
unfolding release_worker
release_worker-IsConsistent id token db h = elim (Option-cases (find_operation id db.operations)) [
  | inl e ↦ rw e h
  | inr (op, e) ↦ rw e (elim (Bool-cases (holds_token op.worker_token token)) [
    | inl mine ↦
        rw mine (save-IsConsistent _ db h (IsSound-touched op _ (found-IsSound id db op h e) refl))
    | inr other ↦ rw other h
  ])
]

pub request_cancel-IsConsistent :
    (id now : ℕ) (db : Db) → IsConsistent db → Ensures IsConsistent (request_cancel id now db)
unfolding request_cancel
request_cancel-IsConsistent id now db h = elim (Option-cases (find_operation id db.operations)) [
  | inl e ↦ rw e tt
  | inr (op, e) ↦ rw e (elim (Bool-cases (status_in op.status terminal_states)) [
    | inl ended ↦ rw ended h
    | inr live ↦
        rw live (save-IsConsistent _ db h (IsSound-touched op _ (found-IsSound id db op h e) refl))
  ])
]

pub stop_row-IsConsistent :
    (target : OperationStatus) (code message artifact_message : String) (now id : ℕ) (db : Db)
    → IsConsistent db
    → status_in target terminal_states ≡ true
    → Ensures IsConsistent
        (stop_row target code message artifact_message now (find_operation id db.operations) db)
stop_row-IsConsistent target code message artifact_message now id db h t =
    elim (Option-cases (find_operation id db.operations)) [
      | inl e ↦ rw e h
      | inr (op, e) ↦ rw e (elim (Bool-cases (status_in op.status terminal_states)) [
        | inl ended ↦ rw ended h
        | inr live ↦ rw live (
            Ensures-then IsConsistent (check_transition op.type op.status target) _ λ ok_.
              save-IsConsistent _ db h (
                stopped-IsSound op target code message artifact_message now
                  (found-IsSound id db op h e) t ok_))
      ])
    ]

pub mark_cancelled-IsConsistent :
    (id now : ℕ) (db : Db) → IsConsistent db → Ensures IsConsistent (mark_cancelled id now db)
unfolding mark_cancelled
mark_cancelled-IsConsistent id now db h = stop_row-IsConsistent cancelled _ _ _ now id db h refl

pub mark_failed-IsConsistent :
    (id : ℕ) (code message : String) (now : ℕ) (db : Db)
    → IsConsistent db
    → Ensures IsConsistent (mark_failed id code message now db)
unfolding mark_failed
mark_failed-IsConsistent id code message now db h =
    stop_row-IsConsistent failed code message message now id db h refl

pub shutdown-IsConsistent :
    (id now : ℕ) (db : Db)
    → IsConsistent db
    → Ensures (λ (r : Bool × Db). IsConsistent r.1) (handle_shutdown_interruption id now db)
unfolding handle_shutdown_interruption
shutdown-IsConsistent id now db h = elim (Option-cases (find_operation id db.operations)) [
  | inl e ↦ rw e h
  | inr (op, e) ↦
      rw e (elim (Bool-cases (status_in op.status terminal_states || same_status op.status ready)) [
        | inl quiet ↦ rw quiet h
        | inr busy ↦ rw busy (
            Ensures-then (λ (r : Bool × Db). IsConsistent r.1)
              (check_transition op.type op.status failed) _
              λ fine.
                save-IsConsistent _ db h
                  (stopped-IsSound op failed _ _ _ now (found-IsSound id db op h e) refl fine))
      ])
]

-- On a consistent table, failing or cancelling an operation never raises.
pub stop_row_total :
    (target : OperationStatus) (code message artifact_message : String) (now id : ℕ) (db : Db)
    → IsConsistent db
    → (target ≡ failed) ⊎ (target ≡ cancelled)
    → (db' : Db) × (stop_row target code message artifact_message now
          (find_operation id db.operations)
          db
        ≡ ok db')
stop_row_total target code message artifact_message now id db h t =
    elim (Option-cases (find_operation id db.operations)) [
      | inl e ↦ rw e (db, refl)
      | inr (op, e) ↦ rw e (elim (Bool-cases (status_in op.status terminal_states)) [
        | inl ended ↦ rw ended (db, refl)
        | inr live ↦
            let can = stop_allowed op.type op.status (found-IsSound id db op h e).on_route live in
            rw live
              (elim t [ inl f ↦ rw f (rw can.0 (_, refl)) | inr c ↦ rw c (rw can.1 (_, refl)) ])
      ])
    ]

-- ===== src/Runtime/Pinned.antt =====
-- While an operation is unfinished the runtime mode and its version stay as they are.
use mathlib.Core.Path.{subst}
use harbor_transfer_portal.Base.{
  Bool-cases, List, Option, Option-cases, Result-cases, String, [], arith, false, inl, inr, refl,
  some, sym, true, ℕ, ◌==◌, ◌∙◌, ◌∷◌, ◌≡◌,
}
use harbor_transfer_portal.Domain.Status.{OperationStatus, OperationType, status_in}
use harbor_transfer_portal.Domain.Transitions.{terminal_states}
use harbor_transfer_portal.Domain.Transitions.Lifecycle.{terminal_refused}
use harbor_transfer_portal.Manager.Consistency.{IsConsistent}
use harbor_transfer_portal.Manager.History.{Follows}
use harbor_transfer_portal.Manager.Model.{Operation, OperationDetails, find_operation}
use harbor_transfer_portal.Manager.Service.{OperationArtifactSpec, create_operation}
use harbor_transfer_portal.Manager.Table.{ids}
use harbor_transfer_portal.Manager.Workers.{submit}
use harbor_transfer_portal.Runtime.Barrier.{
  PortalReach, PortalStep, PortalStep-TableMoved, abort, begin, finish, go, start, stay,
  submit_worker, switch_at_once, transact,
}
use harbor_transfer_portal.Runtime.Barrier.Keeps.{
  abort_switch-Current, begin_switch-Current, complete_switch-busy, mode_guard-Current, switch-busy,
}
use harbor_transfer_portal.Runtime.Commits.{Current, blocking_iff_live}
use harbor_transfer_portal.Runtime.Mode.{RuntimeModeSnapshot, has_blocking_operations}
use harbor_transfer_portal.Runtime.Starts.{
  Portal, bind_snapshot, required_mode, start_operation, start_worker, submit_under,
}
use harbor_transfer_portal.Runtime.Switching.{mode_guard}

busy-found :
    (id : ℕ) (ops : List Operation) (op : Operation)
    → find_operation id ops ≡ some op
    → status_in op.status terminal_states ≡ false
    → has_blocking_operations ops ≡ true
unfolding has_blocking_operations
busy-found id [] op e live = cc
busy-found id (o ∷ os) op e live = elim (Bool-cases (o.id == id)) [
  | inl hit ↦
      let q : some o ≡ some op = rw hit at e in
      let same : o ≡ op = cc q in rw (blocking_iff_live o.status, same, live) refl
  | inr miss ↦ let rest = busy-found id os op (rw miss at e) live in ground (arith, rest)
]

module _ (snapshot : RuntimeModeSnapshot) where
  start_operation-Current :
      (k : OperationType) (initial_status : Option OperationStatus) (details : OperationDetails)
      (specs : List OperationArtifactSpec) (p : Portal)
      → Current p.runtime snapshot
      → Current (start_operation k initial_status details specs p).1.runtime snapshot
  unfolding start_operation
  start_operation-Current k i d specs p h =
      let kept = mode_guard-Current snapshot (some (required_mode k)) p.runtime h in
      elim (Result-cases (mode_guard (some (required_mode k)) p.runtime).0) [
        | inr (e, no_) ↦ rw (no_, start_operation) kept
        | inl (own, fine) ↦
            rw (fine, start_operation)
              (elim (Result-cases (create_operation k i d specs p.db)) [
                | inr (e, bad) ↦ rw bad kept
                | inl (r, made) ↦ rw made kept
              ])
      ]

  submit_under-Current :
      (op : Operation) (tasks : List ℕ) (token : String) (now : ℕ) (p : Portal)
      → Current p.runtime snapshot
      → Current (submit_under op tasks token now p).1.runtime snapshot
  submit_under-Current op tasks token now p h =
      let kept = mode_guard-Current snapshot (some (required_mode op.type)) p.runtime h in
      elim (Result-cases (mode_guard (some (required_mode op.type)) p.runtime).0) [
        | inr (e, no_) ↦ rw (no_, submit_under) kept
        | inl (current, fine) ↦
            rw (fine, submit_under)
              (elim (Result-cases (bind_snapshot op.id current p.snapshots)) [
                | inr (e, other) ↦ rw other kept
                | inl (snapshots, bound) ↦
                    rw bound (elim (Result-cases (submit tasks op.id token now p.db)) [
                      | inr (e, bad) ↦ rw bad kept
                      | inl (r, done) ↦ rw done kept
                    ])
              ])
      ]

  start_worker-Current :
      (tasks : List ℕ) (id : ℕ) (token : String) (now : ℕ) (p : Portal)
      → Current p.runtime snapshot
      → Current (start_worker tasks id token now p).1.runtime snapshot
  unfolding start_worker
  start_worker-Current tasks id token now p h =
      elim (Option-cases (find_operation id p.db.operations)) [
        | inl missing ↦ rw (missing, start_worker) h
        | inr (op, found) ↦ rw (found, start_worker) (submit_under-Current op tasks token now p h)
      ]

  PortalStep-Current :
      {p p' : Portal}
      → PortalStep p p'
      → has_blocking_operations p.db.operations ≡ true
      → Current p.runtime snapshot
      → Current p'.runtime snapshot
  PortalStep-Current (transact s e) busy h = subst (λ (q : Portal). Current q.runtime snapshot) e h
  PortalStep-Current {p} (start k i d specs e) busy h =
      subst (λ (q : Portal). Current q.runtime snapshot) e (start_operation-Current k i d specs p h)
  PortalStep-Current {p} (submit_worker tasks id token now e) busy h =
      subst (λ (q : Portal). Current q.runtime snapshot) e
        (start_worker-Current tasks id token now p h)
  PortalStep-Current {p} (begin mode token e) busy h =
      subst (λ (q : Portal). Current q.runtime snapshot) e
        (begin_switch-Current snapshot mode token p.db.operations p.runtime h)
  PortalStep-Current {p} (finish prepared ids e) busy h =
      subst (λ (q : Portal). Current q.runtime snapshot) e
        (complete_switch-busy snapshot p.db.operations busy prepared ids p.runtime h)
  PortalStep-Current {p} (abort token e) busy h =
      subst (λ (q : Portal). Current q.runtime snapshot) e
        (abort_switch-Current snapshot token p.runtime h)
  PortalStep-Current {p} (switch_at_once mode e) busy h =
      subst (λ (q : Portal). Current q.runtime snapshot) e
        (switch-busy snapshot p.db.operations busy mode p.runtime h)

PortalReach-IsConsistent :
    {p p' : Portal} → IsConsistent p.db → PortalReach p p' → IsConsistent p'.db
PortalReach-IsConsistent h stay = h
PortalReach-IsConsistent h (go r s) = (PortalStep-TableMoved s (PortalReach-IsConsistent h r)).1

-- An operation that has not ended had not ended before.
Follows-live :
    (op op' : Operation)
    → Follows op op'
    → status_in op'.status terminal_states ≡ false
    → status_in op.status terminal_states ≡ false
Follows-live op op' f live = elim f.step [
  | inl same ↦ rw (← same) live
  | inr v ↦ elim (Bool-cases (status_in op.status terminal_states)) [
    | inr live0 ↦ live0
    | inl ended ↦ absurd (let x = terminal_refused op.type op.status op'.status ended in cc)
  ]
]

PortalReach-found :
    {p p' : Portal} (id : ℕ) (op : Operation)
    → IsConsistent p.db
    → PortalReach p p'
    → find_operation id p.db.operations ≡ some op
    → (op' : Operation) × (find_operation id p'.db.operations ≡ some op')
PortalReach-found id op h stay e = (op, e)
PortalReach-found id op h (go r s) e =
    let (op1, e1) = PortalReach-found id op h r e in
    let (op2, e2, f) = (PortalStep-TableMoved s (PortalReach-IsConsistent h r)).0 id op1 e1 in
    (op2, e2)

-- Over any run of the portal, from a consistent table and a stored mode with a positive version, at
-- whose end an operation of its start has not ended, the stored mode and version are at the end what
-- they were at the start, whatever switches were begun, completed, aborted or tried at once.
pub live_operation_pins_mode :
    {p p' : Portal} (id : ℕ) (op op' : Operation) (snapshot : RuntimeModeSnapshot)
    → IsConsistent p.db
    → PortalReach p p'
    → find_operation id p.db.operations ≡ some op
    → find_operation id p'.db.operations ≡ some op'
    → status_in op'.status terminal_states ≡ false
    → Current p.runtime snapshot
    → Current p'.runtime snapshot
live_operation_pins_mode id op op' snapshot h stay e e' live c = c
live_operation_pins_mode id op op' snapshot h (go r s) e e' live c =
    let (op1, e1) = PortalReach-found id op h r e in
    let (op2, e2, f) = (PortalStep-TableMoved s (PortalReach-IsConsistent h r)).0 id op1 e1 in
    let same : op2 ≡ op' = (let q : some op2 ≡ some op' = sym e2 ∙ e' in cc) in
    let live1 = Follows-live op1 op2 f (rw same live) in
    PortalStep-Current snapshot s (busy-found id _ op1 e1 live1)
      (live_operation_pins_mode id op op1 snapshot h r e e1 live1 c)

-- ===== src/Manager/Restart/Idle.antt =====
-- After a restart nothing runs.
use harbor_transfer_portal.Base.{
  ℕ, ◌≡◌, List, [], ◌∷◌, false, ok, inl, inr, Bool-cases, arith, none, All,
}
use harbor_transfer_portal.Domain.Status.{status_in}
use mathlib.Core.Path.{subst}
use harbor_transfer_portal.Manager.Consistency.{IsConsistent}
use harbor_transfer_portal.Manager.Model.{Operation, Db}
use harbor_transfer_portal.Manager.Recovery.{
  interrupted, reconcile_interrupted_operations, active_execution_states,
}
use harbor_transfer_portal.Manager.Restart.{Settled, Forall₂, settles_to, restart_settles}

-- No worker holds the operation and it is in no execution state.
abbrev pub IsIdle : Operation → Type 0
IsIdle op = (op.worker_token ≡ none) × (status_in op.status active_execution_states ≡ false)

settles_to-idle : (op : Operation) → status_in (settles_to op) active_execution_states ≡ false
settles_to-idle op = ground arith

Settled-IsIdle : (op op' : Operation) → Settled op op' → IsIdle op'
Settled-IsIdle op op' s = elim (Bool-cases (interrupted op)) [
  | inl hit ↦ ((s.1 hit).free, rw (s.1 hit).status (settles_to-idle op))
  | inr calm ↦ let e : op' ≡ op = s.0 calm in rw e (ground arith)
]

Forall₂-IsIdle : (ops ops' : List Operation) → Forall₂ Settled ops ops' → All IsIdle ops'
Forall₂-IsIdle [] [] f = tt
Forall₂-IsIdle [] (op' ∷ ops') f = absurd f
Forall₂-IsIdle (op ∷ ops) [] f = absurd f
Forall₂-IsIdle (op ∷ ops) (op' ∷ ops') f = (Settled-IsIdle op op' f.0, Forall₂-IsIdle ops ops' f.1)

-- After the recovery of a consistent table no row has a worker or an execution status.
pub restart_leaves-IsIdle :
    (now n : ℕ) (db db' : Db)
    → IsConsistent db
    → reconcile_interrupted_operations now db ≡ ok (n, db')
    → All IsIdle db'.operations
restart_leaves-IsIdle now n db db' h e =
    let (db'', e', f, c) = restart_settles now db h in
    let same : db''.operations ≡ db'.operations = cc (e, e') in
    subst (All IsIdle) same (Forall₂-IsIdle db.operations db''.operations f)

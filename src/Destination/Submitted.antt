-- ===== src/Destination/Submitted.antt =====
-- When the worker of an operation can be submitted.
use harbor_transfer_portal.Base.{
  Bool, Bool-cases, List, Option, Result, String, if◌then◌else◌, ap, arith, bind-ok, err, false,
  inl, inr, is_some, none, ok, refl, refuse_if-ok, returned, some, sym, true, ℕ, ◌∙◌, ◌∷◌, ◌≡◌, ◌↔◌,
}
use harbor_transfer_portal.Domain.Status.{status_in}
use harbor_transfer_portal.Domain.Transitions.{terminal_states}
use harbor_transfer_portal.Manager.Model.{Db, Failure, Operation, find_operation, save}
use harbor_transfer_portal.Manager.Service.{claim, claim_worker, claimable}
use harbor_transfer_portal.Manager.Workers.{submit, task_running}

-- No task of this process runs the operation, no worker holds it, no cancellation of it is asked for
-- and it has not ended; the result is its task with the others and the table with its claim.
pub record IsSubmitted (tasks : List ℕ) (id : ℕ) (worker_token : String) (now : ℕ) (db : Db)
    (result : List ℕ × Db) : Type 0 where
  pub operation : Operation
  pub there : find_operation id db.operations ≡ some operation
  pub idle : task_running id tasks ≡ false
  pub unheld : operation.worker_token ≡ none
  pub uncancelled : operation.cancel_requested_at ≡ none
  pub not_ended : status_in operation.status terminal_states ≡ false
  pub claimed : result ≡ (
    id ∷ tasks,
    save
        (record operation {
          worker_token = some worker_token;
          worker_started_at = some now;
          heartbeat_at = some now;
        })
        db,
  )

absent_value : {A : Type 0} (o : Option A) → is_some o ≡ false → o ≡ none
absent_value none h = refl
absent_value (some a) h = cc

claimable-parts :
    (op : Operation)
    → claimable op ≡ true
    → (op.worker_token ≡ none)
      × (op.cancel_requested_at ≡ none)
      × (status_in op.status terminal_states ≡ false)
claimable-parts op h =
    let a : is_some op.worker_token ≡ false = ground (arith, h) in
    let b : is_some op.cancel_requested_at ≡ false = ground (arith, h) in
    let c : status_in op.status terminal_states ≡ false = ground (arith, h) in
    (absent_value op.worker_token a, absent_value op.cancel_requested_at b, c)

never :
    {P : Type 0} (a b : Bool) (x y z : Failure) {v : Db}
    → ◌≡◌ {A = Result Failure Db} (if a then err x else if b then err y else err z) (ok v)
    → P
never true b x y z h = cc
never false true x y z h = cc
never false false x y z h = cc

module _ (tasks : List ℕ) (id : ℕ) (worker_token : String) (now : ℕ) (db : Db)
    (result : List ℕ × Db) where
  claim-IsSubmitted :
      (found : Option Operation)
      → find_operation id db.operations ≡ found
      → task_running id tasks ≡ false
      → {db' : Db} → claim worker_token now found db ≡ ok db'
      → result ≡ (id ∷ tasks, db')
      → IsSubmitted tasks id worker_token now db result
  claim-IsSubmitted none f i h e = cc
  claim-IsSubmitted (some op) f i h e = elim (Bool-cases (claimable op)) [
    | inr closed ↦
        never (status_in op.status terminal_states) (is_some op.cancel_requested_at) _ _ _
          (rw closed at h)
    | inl free ↦
        let (a, b, c) = claimable-parts op free in
        let k = rw free at h in
        record {
          operation = op;
          there = f;
          idle = i;
          unheld = a;
          uncancelled = b;
          not_ended = c;
          claimed = e ∙ ap (λ x. (id ∷ tasks, x)) (sym (returned k));
        }
  ]

  submit-IsSubmitted :
      submit tasks id worker_token now db ≡ ok result
      → IsSubmitted tasks id worker_token now db result
  unfolding submit claim_worker
  submit-IsSubmitted h =
      let (i, h0) = refuse_if-ok (task_running id tasks) _ _ h in
      let (db', c, h1) =
        bind-ok (claim worker_token now (find_operation id db.operations) db) _ h0 in
      claim-IsSubmitted (find_operation id db.operations) refl i c (sym (returned h1))

  IsSubmitted-submit :
      IsSubmitted tasks id worker_token now db result
      → submit tasks id worker_token now db ≡ ok result
  unfolding submit claim_worker
  IsSubmitted-submit s =
      let c : claimable s.operation ≡ true = rw (s.unheld, s.uncancelled, s.not_ended) refl in
      rw (s.idle, s.there, c) (ap ok (sym s.claimed))

  pub submit-iff-IsSubmitted :
      (submit tasks id worker_token now db ≡ ok result)
      ↔ IsSubmitted tasks id worker_token now db result
  submit-iff-IsSubmitted = (submit-IsSubmitted, IsSubmitted-submit)

-- ===== src/Manager/System/Phases.antt =====
-- What a run of the system does to the status of one operation.
use harbor_transfer_portal.Base.{false, if◌then◌else◌}
use harbor_transfer_portal.Domain.Status.{same_status, same_status_iff}
use mathlib.Core.List.{append-nil}
use mathlib.Core.Path.{subst}
use harbor_transfer_portal.Base.{
  List, Option, Result-cases, [], ap, arith, inl, inr, ok, refl, some, sym, true, ℕ, ◌++◌, ◌∙◌, ◌∷◌,
  ◌≡◌,
}
use harbor_transfer_portal.Domain.Status.{OperationStatus, OperationType, completed, status_in}
use harbor_transfer_portal.Domain.Transitions.{terminal_states, validate_transition}
use harbor_transfer_portal.Domain.Transitions.Lifecycle.{
  path_from, walk, walk_completed, walk_ended,
}
use harbor_transfer_portal.Manager.Consistency.{IsConsistent}
use harbor_transfer_portal.Manager.Model.{Db, Operation, find_operation}
use harbor_transfer_portal.Manager.System.{Step-Moved, Reach-IsConsistent, Reach, here, next}

walk-append :
    (k : OperationType) (s t u : OperationStatus) (ts : List OperationStatus)
    → walk k s ts ≡ some t
    → validate_transition k t u ≡ ok tt
    → walk k s (ts ++ u ∷ []) ≡ some u
unfolding walk
walk-append k s t u [] w v = let e : s ≡ t = cc in rw e (rw (v, walk))
walk-append k s t u (x ∷ xs) w v = elim (Result-cases (validate_transition k s x)) [
  | inl (u', fine) ↦ rw (fine, walk) (walk-append k x t u xs (rw (fine, walk) at w) v)
  | inr (e, bad) ↦ absurd (ground (arith, bad))
]

-- The change of one operation's status across a step, if it changed.
abbrev change : Option Operation → Option Operation → List OperationStatus
change (some a) (some b) = if same_status a.status b.status then [] else b.status ∷ []
change _ _ = []

-- The statuses that the operation with this key took, one after another, in a run of the system.
pub taken : {db db' : Db} → ℕ → Reach db db' → List OperationStatus
taken id here = []
taken id (next {mid = mid} {db' = last} r s) =
    taken id r ++ change (find_operation id mid.operations) (find_operation id last.operations)

changed :
    (k : OperationType) (s t : OperationStatus)
    → validate_transition k s t ≡ ok tt
    → same_status s t ≡ false
unfolding validate_transition
changed k s t h = ground arith

-- The statuses that an operation takes form a walk of accepted transitions.
pub Reach-walk :
    {db db' : Db} (id : ℕ) (op : Operation)
    → IsConsistent db
    → (r : Reach db db') → find_operation id db.operations ≡ some op
    → (op' : Operation) × (find_operation id db'.operations ≡ some op')
      × (op'.type ≡ op.type)
      × (walk op.type op.status (taken id r) ≡ some op'.status)
unfolding walk taken
Reach-walk id op h here e = (op, e, refl, refl)
Reach-walk id op h (next r s) e =
    let (op1, e1, k1, w) = Reach-walk id op h r e in
    let (op2, e2, f) = Step-Moved s (Reach-IsConsistent h r) id op1 e1 in
    (
      op2,
      e2,
      f.same_type ∙ k1,
      rw (e1, e2)
          (elim f.step [
            | inl same ↦
                rw ((same_status_iff op1.status op2.status).1 (sym same))
                  (rw append-nil (w ∙ ap some (sym same)))
            | inr v ↦ rw (changed op1.type op1.status op2.status v) (
                walk-append op.type op.status op1.status op2.status (taken id r) w
                  (subst (λ k. validate_transition k op1.status op2.status ≡ ok tt) k1 v))
          ]),
    )

-- An operation that has ended keeps its status for ever, whatever transactions of the
-- operation manager run.
pub terminal_for_ever :
    {db db' : Db} (id : ℕ) (op : Operation)
    → IsConsistent db
    → Reach db db'
    → find_operation id db.operations ≡ some op
    → status_in op.status terminal_states ≡ true
    → (op' : Operation) × (find_operation id db'.operations ≡ some op') × (op'.status ≡ op.status)
terminal_for_ever id op h r e t =
    let (op', e', k, w) = Reach-walk id op h r e in
    (op', e', walk_ended op.type op.status (taken id r) t w)

-- If an operation is `completed` at the end of a run of the system, then the statuses that it took
-- on the way are exactly the phases of its type that were left, in order, however the transactions
-- of its worker, of users and of restarts interleave.
pub completed_in_order :
    {db db' : Db} (id : ℕ) (op op' : Operation)
    → IsConsistent db
    → (r : Reach db db') → find_operation id db.operations ≡ some op
    → find_operation id db'.operations ≡ some op'
    → op'.status ≡ completed
    → taken id r ≡ path_from op.type op.status
completed_in_order id op op' h r e e' c =
    let (last, e'', k, w) = Reach-walk id op h r e in
    let same : last ≡ op' = (let q : some last ≡ some op' = sym e'' ∙ e' in cc) in
    walk_completed op.type op.status (taken id r)
      (w ∙ ap (λ (o : Operation). some o.status) same ∙ ap some c)

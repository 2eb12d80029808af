-- ===== src/Runtime/Bound.antt =====
-- A worker starts only in the mode, and at the version of it, that its operation is bound to.
use harbor_transfer_portal.Base.{
  Bool-cases, List, Option-cases, Result-cases, String, ap, inl, inr, none, ok, refl, some, ℕ, ◌∙◌,
  ◌∷◌, ◌≡◌, refuse_if, is_some, ==_iff, Option,
}
use harbor_transfer_portal.Manager.Model.{Operation, find_operation}
use harbor_transfer_portal.Runtime.Commits.{Current, current_snapshot-Current}
use harbor_transfer_portal.Runtime.Mode.{
  PortalContour, RuntimeModeSnapshot, RuntimeState, require_no_pending_switch, same_mode,
  ModeResult,
}
use harbor_transfer_portal.Runtime.Starts.{
  Portal, bind_snapshot, find_snapshot, required_mode, start_worker, submit_under,
}
use harbor_transfer_portal.Runtime.Switching.{mode_guard, same_snapshot}
use harbor_transfer_portal.Manager.Workers.{submit}
use harbor_transfer_portal.Runtime.Commits.{same_mode-eq, same_snapshot-eq}

no_pending :
    {u : Unit {0}} (o : Option (String × PortalContour))
    → ◌≡◌ {A = ModeResult (Unit {0})}
        (refuse_if (is_some o) "runtime_mode_switch_in_progress")
        (ok u)
    → o ≡ none
no_pending none e = refl
no_pending (some p) e = cc

require_no_pending_switch-passed :
    {u : Unit {0}} (s : RuntimeState) → require_no_pending_switch s ≡ ok u → s.pending ≡ none
unfolding require_no_pending_switch
require_no_pending_switch-passed s e = no_pending s.pending e

-- What a guard that was passed has seen.
pub mode_guard-passed :
    (m : PortalContour) (s : RuntimeState) (snapshot seen : RuntimeModeSnapshot)
    → Current s snapshot
    → (mode_guard (some m) s).0 ≡ ok seen
    → (seen ≡ snapshot) × (snapshot.mode ≡ m) × (s.pending ≡ none)
unfolding mode_guard
mode_guard-passed m s snapshot seen h e = elim (Result-cases (require_no_pending_switch s)) [
  | inr (x, held) ↦ absurd (let y = rw held at e in cc)
  | inl (_, fine) ↦
      let free = require_no_pending_switch-passed s fine in
      let e1 = rw fine at e in
      let e2 = rw (current_snapshot-Current s snapshot h) at e1 in
      elim (Bool-cases (same_mode snapshot.mode m)) [
        | inr other ↦ absurd (let x = rw other at e2 in cc)
        | inl same ↦
            let e3 = rw same at e2 in
            (let q : seen ≡ snapshot = cc e3 in q, same_mode-eq snapshot.mode m same, free)
      ]
]

find_snapshot-bind_snapshot :
    (id : ℕ) (current : RuntimeModeSnapshot) (snapshots bound : List (ℕ × RuntimeModeSnapshot))
    → bind_snapshot id current snapshots ≡ ok bound
    → find_snapshot id bound ≡ some current
unfolding bind_snapshot
find_snapshot-bind_snapshot id current snapshots bound e =
    elim (Option-cases (find_snapshot id snapshots)) [
      | inl legacy ↦
          let e1 = rw (legacy, bind_snapshot) at e in
          let q : (id, current) ∷ snapshots ≡ bound = cc e1 in
          rw (← q) (rw ((==_iff id id).1 refl) refl)
      | inr (own, found) ↦
          let e1 = rw (found, bind_snapshot) at e in
          elim (Bool-cases (same_snapshot own current)) [
            | inr other ↦ absurd (let x = rw other at e1 in cc)
            | inl same ↦
                let e2 = rw same at e1 in
                let q : snapshots ≡ bound = cc e2 in
                rw (← q) (found ∙ ap some (same_snapshot-eq own current same))
          ]
    ]

-- If a worker is started for an operation while the stored mode and version are `snapshot`, then no
-- switch is pending, the mode is the one that the operation's type needs, and the snapshot that the
-- operation keeps afterwards is that mode and version.
pub start_worker-bound :
    (tasks tasks' : List ℕ) (id : ℕ) (token : String) (now : ℕ) (p : Portal) (op : Operation)
    (snapshot : RuntimeModeSnapshot)
    → Current p.runtime snapshot
    → find_operation id p.db.operations ≡ some op
    → (start_worker tasks id token now p).0 ≡ ok tasks'
    → (p.runtime.pending ≡ none)
      × (snapshot.mode ≡ required_mode op.type)
      × (find_snapshot op.id (start_worker tasks id token now p).1.snapshots ≡ some snapshot)
unfolding start_worker
start_worker-bound tasks tasks' id token now p op snapshot h found e =
    let e0 : (submit_under op tasks token now p).0 ≡ ok tasks' = rw (found, start_worker) at e in
    rw (found, start_worker)
      (elim (Result-cases (mode_guard (some (required_mode op.type)) p.runtime).0) [
        | inr (x, no_) ↦ absurd (let y = rw (no_, submit_under) at e0 in cc)
        | inl (current, fine) ↦
            let (seen, right, free) = mode_guard-passed _ p.runtime snapshot current h fine in
            let e1 = rw (fine, submit_under) at e0 in
            rw (fine, submit_under)
              (elim (Result-cases (bind_snapshot op.id current p.snapshots)) [
                | inr (x, other) ↦ absurd (let y = rw other at e1 in cc)
                | inl (snapshots, bound) ↦
                    let kept =
                      find_snapshot-bind_snapshot op.id current p.snapshots snapshots bound in
                    rw bound (elim (Result-cases (submit tasks op.id token now p.db)) [
                      | inr (x, bad) ↦ rw bad (free, right, kept ∙ ap some seen)
                      | inl (r, done) ↦ rw done (free, right, kept ∙ ap some seen)
                    ])
              ])
      ])

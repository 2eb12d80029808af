-- ===== src/Runtime/Barrier/Keeps.antt =====
-- What leaves the stored mode and version as they are.
use harbor_transfer_portal.Base.{
  Bool-cases, List, Option, String, err, inl, inr, none, ok, some, true, ℕ, ◌≡◌,
}
use harbor_transfer_portal.Manager.Model.{Operation}
use harbor_transfer_portal.Runtime.Commits.{
  remaining-blocking_operation_ids, Current, current_snapshot-Current,
}
use harbor_transfer_portal.Runtime.Mode.{
  ModeResult, PortalContour, RuntimeModeSnapshot, RuntimeState, current_snapshot,
  has_blocking_operations, require_no_pending_switch, same_mode,
}
use harbor_transfer_portal.Runtime.Switching.{
  Returned, RuntimeModeSwitchPreparation, abort_switch, begin_after, begin_from, begin_switch,
  complete_after, complete_switch, complete_with, guard_after, guard_from, held_by, mode_guard,
  reserved, same_snapshot, switch, switch_after, switch_from,
}

contour-Current :
    (s : RuntimeState) (snapshot : RuntimeModeSnapshot) (m : PortalContour)
    → Current s snapshot
    → Current (record s { portal_contour = m }) snapshot
contour-Current s snapshot m h = record {
  mode_row = h.mode_row;
  version_row = h.version_row;
  positive = h.positive;
}

pending-Current :
    (s : RuntimeState) (snapshot : RuntimeModeSnapshot) (o : Option (String × PortalContour))
    → Current s snapshot
    → Current (record s { pending = o }) snapshot
pending-Current s snapshot o h = record {
  mode_row = h.mode_row;
  version_row = h.version_row;
  positive = h.positive;
}

pub read-Current :
    (s : RuntimeState) (snapshot : RuntimeModeSnapshot)
    → Current s snapshot
    → Current (current_snapshot s).1 snapshot
read-Current s snapshot h =
    rw (current_snapshot-Current s snapshot h) (contour-Current s snapshot _ h)

module _ (snapshot : RuntimeModeSnapshot) where
  guard_after-Current :
      (required : Option PortalContour) (x : Returned RuntimeModeSnapshot)
      → Current x.1 snapshot
      → Current (guard_after required x).1 snapshot
  guard_after-Current required (err e, s) h = h
  guard_after-Current none (ok current, s) h = h
  guard_after-Current (some mode) (ok current, s) h = h

  guard_from-Current :
      (required : Option PortalContour) (r : ModeResult (Unit {0})) (s : RuntimeState)
      → Current s snapshot
      → Current (guard_from required r s).1 snapshot
  guard_from-Current required (err e) s h = h
  guard_from-Current required (ok u) s h =
      guard_after-Current required (current_snapshot s) (read-Current s snapshot h)

  pub mode_guard-Current :
      (required : Option PortalContour) (s : RuntimeState)
      → Current s snapshot
      → Current (mode_guard required s).1 snapshot
  unfolding mode_guard
  mode_guard-Current required s h = guard_from-Current required (require_no_pending_switch s) s h

  begin_after-Current :
      (mode : PortalContour) (token : String) (ops : List Operation)
      (x : Returned RuntimeModeSnapshot)
      → Current x.1 snapshot
      → Current (begin_after mode token ops x).1 snapshot
  begin_after-Current mode token ops (err e, s) h = h
  begin_after-Current mode token ops (ok previous, s) h =
      elim (Bool-cases (same_mode mode previous.mode)) [
        | inl same ↦ rw same h
        | inr other ↦ rw other (pending-Current s snapshot _ h)
      ]

  begin_from-Current :
      (mode : PortalContour) (token : String) (ops : List Operation) (r : ModeResult (Unit {0}))
      (s : RuntimeState)
      → Current s snapshot
      → Current (begin_from mode token ops r s).1 snapshot
  begin_from-Current mode token ops (err e) s h = h
  begin_from-Current mode token ops (ok u) s h =
      begin_after-Current mode token ops (current_snapshot s) (read-Current s snapshot h)

  pub begin_switch-Current :
      (mode : PortalContour) (token : String) (ops : List Operation) (s : RuntimeState)
      → Current s snapshot
      → Current (begin_switch mode token ops s).1 snapshot
  unfolding begin_switch
  begin_switch-Current mode token ops s h =
      begin_from-Current mode token ops (require_no_pending_switch s) s h

  pub abort_switch-Current :
      (token : Option String) (s : RuntimeState)
      → Current s snapshot
      → Current (abort_switch token s) snapshot
  unfolding abort_switch
  abort_switch-Current none s h = h
  abort_switch-Current (some token) s h = elim (Bool-cases (held_by s.pending token)) [
    | inl mine ↦ rw mine (pending-Current s snapshot _ h)
    | inr other ↦ rw other h
  ]

  -- With an unfinished operation neither way to switch changes the rows.
  module _ (ops : List Operation) (busy : has_blocking_operations ops ≡ true) where
    complete_after-busy :
        (p : RuntimeModeSwitchPreparation) (cancelled_ids : List ℕ)
        (x : Returned RuntimeModeSnapshot)
        → Current x.1 snapshot
        → Current (complete_after p cancelled_ids ops x).1 snapshot
    complete_after-busy p cancelled_ids (err e, s) h = h
    complete_after-busy p cancelled_ids (ok current, s) h =
        elim (Bool-cases (same_snapshot current p.previous)) [
          | inl same ↦ rw same (rw (remaining-blocking_operation_ids ops, busy) h)
          | inr stale ↦ rw stale h
        ]

    complete_with-busy :
        (token : Option String) (p : RuntimeModeSwitchPreparation) (cancelled_ids : List ℕ)
        (s : RuntimeState)
        → Current s snapshot
        → Current (complete_with token p cancelled_ids ops s).1 snapshot
    complete_with-busy none p cancelled_ids s h = h
    complete_with-busy (some token) p cancelled_ids s h =
        elim (Bool-cases (reserved s.pending token p.target)) [
          | inl held ↦
              rw held (
                complete_after-busy p cancelled_ids (current_snapshot s)
                  (read-Current s snapshot h))
          | inr lost ↦ rw lost h
        ]

    pub complete_switch-busy :
        (p : RuntimeModeSwitchPreparation) (cancelled_ids : List ℕ) (s : RuntimeState)
        → Current s snapshot
        → Current (complete_switch p cancelled_ids ops s).1 snapshot
    unfolding complete_switch
    complete_switch-busy p cancelled_ids s h = complete_with-busy p.token p cancelled_ids s h

    switch_after-busy :
        (mode : PortalContour) (x : Returned RuntimeModeSnapshot)
        → Current x.1 snapshot
        → Current (switch_after mode ops x).1 snapshot
    switch_after-busy mode (err e, s) h = h
    switch_after-busy mode (ok previous, s) h = elim (Bool-cases (same_mode mode previous.mode)) [
      | inl same ↦ rw same h
      | inr other ↦ rw other (rw busy h)
    ]

    switch_from-busy :
        (mode : PortalContour) (r : ModeResult (Unit {0})) (s : RuntimeState)
        → Current s snapshot
        → Current (switch_from mode ops r s).1 snapshot
    switch_from-busy mode (err e) s h = h
    switch_from-busy mode (ok u) s h =
        switch_after-busy mode (current_snapshot s) (read-Current s snapshot h)

    pub switch-busy :
        (mode : PortalContour) (s : RuntimeState)
        → Current s snapshot
        → Current (switch mode ops s).1 snapshot
    unfolding switch
    switch-busy mode s h = switch_from-busy mode (require_no_pending_switch s) s h

-- ===== src/Runtime/Commits.antt =====
-- What a switch of the mode commits, and what leaves the mode alone.
use harbor_transfer_portal.Runtime.Switching.{Returned, complete_with}
use harbor_transfer_portal.Runtime.Switching.{switched}
use mathlib.Core.Path.{subst}
use harbor_transfer_portal.Base.{Bool-cases, [], ap, false, inl, inr, sym}
use harbor_transfer_portal.Runtime.Mode.{has_blocking_operations}
use harbor_transfer_portal.Runtime.Switching.{remaining, same_snapshot}
use harbor_transfer_portal.Base.{◌∙◌}
use harbor_transfer_portal.Runtime.Mode.{blocking_ids, blocking_operation_ids}
use harbor_transfer_portal.Base.{insert_by, leb, sort_by}
use harbor_transfer_portal.Base.{All, List, String, is_some, none, true, ◌&&◌, ◌+◌, ◌∷◌}
use harbor_transfer_portal.Manager.Model.{Operation}
use harbor_transfer_portal.Runtime.Mode.{same_mode, stored_snapshot}
use harbor_transfer_portal.Runtime.Switching.{
  RuntimeModeSwitchPreparation, RuntimeModeSwitchResult, complete_switch, reserved,
}
use harbor_transfer_portal.Base.{arith, not, ok, refl, some, ℕ, ◌≡◌, ◌≤◌}
use harbor_transfer_portal.Domain.Status.{OperationStatus, status_in}
use harbor_transfer_portal.Domain.Transitions.{terminal_states}
use harbor_transfer_portal.Runtime.Mode.{
  PortalContour, RuntimeModeSnapshot, RuntimeState, blocking_operation_statuses, current_snapshot,
  mode_value, number, parse_mode, parse_version, read_snapshot, source, target,
}

-- The stored rows say this snapshot.
pub record Current (s : RuntimeState) (snapshot : RuntimeModeSnapshot) : Type 0 where
  pub mode_row : s.stored_mode ≡ some (mode_value snapshot.mode)
  pub version_row : s.stored_version ≡ some (number snapshot.version)
  pub positive : 1 ≤ snapshot.version

parse_mode-mode_value : (m : PortalContour) → parse_mode (mode_value m) ≡ ok m
unfolding parse_mode
parse_mode-mode_value source = refl
parse_mode-mode_value target = refl

parse_version-number : (n : ℕ) → 1 ≤ n → parse_version (number n) ≡ ok n
unfolding parse_version
parse_version-number n h = ground arith

stored_snapshot-Current :
    (s : RuntimeState) (snapshot : RuntimeModeSnapshot)
    → Current s snapshot
    → stored_snapshot s.stored_mode s.stored_version ≡ ok snapshot
stored_snapshot-Current s snapshot h =
    rw (h.mode_row, h.version_row)
      (rw (parse_mode-mode_value snapshot.mode)
        (rw (parse_version-number snapshot.version h.positive)))

-- Reading the mode gives what the rows say, and refreshes `settings.portal_contour`.
pub current_snapshot-Current :
    (s : RuntimeState) (snapshot : RuntimeModeSnapshot)
    → Current s snapshot
    → current_snapshot s ≡ (ok snapshot, record s { portal_contour = snapshot.mode })
unfolding current_snapshot read_snapshot
current_snapshot-Current s snapshot h =
    let both : (is_some s.stored_mode && is_some s.stored_version) ≡ true =
      rw (h.mode_row, h.version_row) in
    rw both (rw (stored_snapshot-Current s snapshot h, read_snapshot))

-- The statuses that block a switch are exactly those that are not terminal.
pub blocking_iff_live :
    (s : OperationStatus)
    → status_in s blocking_operation_statuses ≡ not (status_in s terminal_states)
blocking_iff_live s = ground arith

pub same_mode-eq : (a b : PortalContour) → same_mode a b ≡ true → a ≡ b
same_mode-eq a b h = ground arith

pub same_snapshot-eq : (a b : RuntimeModeSnapshot) → same_snapshot a b ≡ true → a ≡ b
same_snapshot-eq a b h = ground arith

no_blocking-ended :
    (ops : List Operation)
    → has_blocking_operations ops ≡ false
    → All (λ o. status_in o.status terminal_states ≡ true) ops
unfolding has_blocking_operations
no_blocking-ended [] h = tt
no_blocking-ended (o ∷ os) h =
    (ground (arith, blocking_iff_live o.status), no_blocking-ended os (ground arith))

remaining-sort_by : (ids : List ℕ) → remaining (sort_by leb ids) ≡ remaining ids
remaining-sort_by [] = refl
remaining-sort_by (id ∷ ids) = inserted id (sort_by leb ids)
  where
    inserted : (id : ℕ) (ids : List ℕ) → remaining (insert_by leb id ids) ≡ true
    inserted id [] = refl
    inserted id (k ∷ ks) = elim (Bool-cases (leb id k)) [ inl e ↦ rw e refl | inr e ↦ rw e refl ]

remaining-blocking_ids :
    (ops : List Operation) → remaining (blocking_ids ops) ≡ has_blocking_operations ops
unfolding has_blocking_operations
remaining-blocking_ids [] = refl
remaining-blocking_ids (o ∷ os) =
    elim (Bool-cases (status_in o.status blocking_operation_statuses)) [
      | inl blocks ↦ rw blocks refl
      | inr ended ↦ rw ended (remaining-blocking_ids os)
    ]

-- The two ways to ask for blocking operations agree.
pub remaining-blocking_operation_ids :
    (ops : List Operation) → remaining (blocking_operation_ids ops) ≡ has_blocking_operations ops
unfolding blocking_operation_ids
remaining-blocking_operation_ids ops =
    remaining-sort_by (blocking_ids ops) ∙ remaining-blocking_ids ops

-- A switch that was prepared is committed only for the reservation that is pending, from the mode and
-- version that were read at its start, and with no operation unfinished. It then stores the target
-- and the next version, records one audit event, and ends the reservation.
pub complete_switch-commits :
    (p : RuntimeModeSwitchPreparation) (token : String) (cancelled_ids : List ℕ)
    (ops : List Operation) (s s' : RuntimeState) (snapshot : RuntimeModeSnapshot)
    (r : RuntimeModeSwitchResult)
    → Current s snapshot
    → p.token ≡ some token
    → complete_switch p cancelled_ids ops s ≡ (ok r, s')
    → (reserved s.pending token p.target ≡ true)
      × (snapshot ≡ p.previous)
      × All (λ o. status_in o.status terminal_states ≡ true) ops
      × Current s' (record { mode = p.target; version = snapshot.version + 1 })
      × (s'.pending ≡ none)
      × (s'.audit
          ≡ record {
            previous = snapshot.mode;
            current = p.target;
            mode_version = snapshot.version + 1;
            cancelled_operation_ids = cancelled_ids;
          }
            ∷ s.audit)
unfolding complete_switch switched
complete_switch-commits p token cancelled_ids ops s s' snapshot r h t e =
    let e1 : complete_with (some token) p cancelled_ids ops s ≡ (ok r, s') = rw t at e in
    elim (Bool-cases (reserved s.pending token p.target)) [
      | inr lost ↦ absurd (let x = rw lost at e1 in cc)
      | inl held ↦
          let e2 = rw held at e1 in
          let cur = current_snapshot-Current s snapshot h in
          let e3 = rw cur at e2 in
          elim (Bool-cases (same_snapshot snapshot p.previous)) [
            | inr stale ↦ absurd (let x = rw stale at e3 in cc)
            | inl same ↦
                let e4 = rw same at e3 in
                elim (Bool-cases (remaining (blocking_operation_ids ops))) [
                  | inr free ↦
                      let e5 = rw free at e4 in
                      let q = ap (λ (x : Returned RuntimeModeSwitchResult). x.1) e5 in
                      (
                        held,
                        same_snapshot-eq _ _ same,
                        no_blocking-ended ops (sym (remaining-blocking_operation_ids ops) ∙ free),
                        subst
                            (λ x.
                              Current x
                                (record { mode = p.target; version = snapshot.version + 1 }))
                            q
                            (record {
                              mode_row = refl;
                              version_row = refl;
                              positive = omega arith;
                            }),
                        sym (ap (λ (x : RuntimeState). x.pending) q),
                        sym (ap (λ (x : RuntimeState). x.audit) q),
                      )
                  | inl busy ↦ absurd (let x = rw busy at e4 in cc)
                ]
          ]
    ]

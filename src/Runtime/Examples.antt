-- ===== src/Runtime/Examples.antt =====
-- A portal in SOURCE mode: a switch that commits, and one that an export holds up.
use harbor_transfer_portal.Base.{List, ℕ}
use harbor_transfer_portal.Manager.Service.{claim_worker}
use harbor_transfer_portal.Runtime.Bound.{start_worker-bound}
use harbor_transfer_portal.Runtime.Starts.{
  bind_snapshot, find_snapshot, required_mode, start_worker,
}
use harbor_transfer_portal.Manager.Workers.{submit}
use harbor_transfer_portal.Manager.Model.{Operation}
use harbor_transfer_portal.Base.{All, [], arith, false, none, ok, refl, some, true, ◌∷◌, ◌≡◌}
use harbor_transfer_portal.Domain.Status.{export, status_in}
use harbor_transfer_portal.Domain.Transitions.{terminal_states}
use harbor_transfer_portal.Manager.Model.{Operation, OperationDetails, find_operation}
use harbor_transfer_portal.Manager.Service.{
  create_operation, delivery_taken, new_artifacts, new_operation, validate_initial_status,
}
use harbor_transfer_portal.Manager.System.{IsConsistent-empty, empty}
use harbor_transfer_portal.Runtime.Barrier.{
  PortalReach, PortalStep, PortalStep-TableMoved, abort, begin, go, start, stay, switch_at_once,
}
use harbor_transfer_portal.Runtime.Commits.{Current, complete_switch-commits}
use harbor_transfer_portal.Runtime.Mode.{
  RuntimeModeSnapshot, RuntimeState, blocking_operation_ids, current_snapshot, number, parse_mode,
  parse_version, read_snapshot, require_no_pending_switch, source, target,
}
use harbor_transfer_portal.Runtime.Pinned.{live_operation_pins_mode}
use harbor_transfer_portal.Runtime.Starts.{Portal, start_operation}
use harbor_transfer_portal.Runtime.Switching.{
  RuntimeModeSwitchPreparation, RuntimeModeSwitchResult, abort_switch, begin_switch,
  complete_switch, mode_guard, reserved, switch, switched,
}

abbrev in_source : RuntimeModeSnapshot
in_source = record { mode = source; version = 1 }

abbrev idle_mode : RuntimeState
idle_mode = record {
  stored_mode = some "SOURCE";
  stored_version = some (number 1);
  portal_contour = source;
  pending = none;
  audit = [];
}

idle_mode-Current : Current idle_mode in_source
idle_mode-Current = record { mode_row = refl; version_row = refl; positive = omega arith }

abbrev prepared : RuntimeModeSwitchPreparation
prepared = record { token = some "t1"; previous = in_source; target = target; blocking = [] }

abbrev reserved_mode : RuntimeState
reserved_mode = record idle_mode { pending = some ("t1", target) }

reserved_mode-Current : Current reserved_mode in_source
reserved_mode-Current = record { mode_row = refl; version_row = refl; positive = omega arith }

-- What `begin_switch` reserves.
reservation : begin_switch target "t1" [] idle_mode ≡ (ok prepared, reserved_mode)
unfolding begin_switch current_snapshot read_snapshot parse_mode parse_version
    require_no_pending_switch blocking_operation_ids
reservation = refl

committed :
    (s : RuntimeState) × (r : RuntimeModeSwitchResult) × (complete_switch prepared [] []
        reserved_mode
      ≡ (ok r, s))
unfolding complete_switch current_snapshot read_snapshot parse_mode parse_version switched
    blocking_operation_ids
committed = (_, _, refl)

complete_switch-commits_example :
    (reserved reserved_mode.pending "t1" target ≡ true)
    × (in_source ≡ prepared.previous)
    × All (λ (o : Operation). status_in o.status terminal_states ≡ true) []
    × Current committed.0 (record { mode = target; version = 2 })
    × (committed.0.pending ≡ none)
    × (committed.0.audit
        ≡ record {
          previous = source;
          current = target;
          mode_version = 2;
          cancelled_operation_ids = [];
        }
          ∷ [])
complete_switch-commits_example =
    complete_switch-commits prepared "t1" [] [] reserved_mode committed.0 in_source committed.1
      reserved_mode-Current refl committed.2

abbrev idle_portal : Portal
idle_portal = record { db = empty; runtime = idle_mode; snapshots = [] }

abbrev details : OperationDetails
details = record {
  delivery_id = none;
  actor_user_id = some 1;
  actor_username = "admin";
  comment = none;
  harbor_profile_id = none;
  harbor_profile_name = none;
  harbor_profile_url = none;
}

exporting :
    (p : Portal) × (op : Operation) × PortalStep idle_portal p
    × (find_operation 1 p.db.operations ≡ some op)
    × (status_in op.status terminal_states ≡ false)
    × Current p.runtime in_source
unfolding start_operation mode_guard current_snapshot read_snapshot parse_mode parse_version
    require_no_pending_switch create_operation validate_initial_status delivery_taken new_operation
    new_artifacts
exporting = (
  _,
  _,
  start export none details [] refl,
  refl,
  refl,
  record { mode_row = refl; version_row = refl; positive = omega arith },
)

-- Somebody tries to switch at once, then begins a switch and gives it up.
abbrev tried : Portal → Portal
tried p = record p { runtime = (switch target p.db.operations p.runtime).1 }

abbrev begun : Portal → Portal
begun p = record p { runtime = (begin_switch target "t1" p.db.operations p.runtime).1 }

abbrev given_up : Portal → Portal
given_up p = record p { runtime = abort_switch (some "t1") p.runtime }

attempts : (p : Portal) → PortalReach p (given_up (begun (tried p)))
attempts p =
    go (go (go stay (switch_at_once target refl)) (begin target "t1" refl)) (abort (some "t1") refl)

live_operation_pins_mode_example : Current (given_up (begun (tried exporting.0))).runtime in_source
live_operation_pins_mode_example =
    live_operation_pins_mode 1 exporting.1 exporting.1 in_source
      (PortalStep-TableMoved exporting.2 IsConsistent-empty).1 (attempts exporting.0) exporting.3
      exporting.3 exporting.4 exporting.5

started : (tasks : List ℕ) × ((start_worker [] 1 "w1" 5 exporting.0).0 ≡ ok tasks)
unfolding exporting start_worker bind_snapshot submit claim_worker start_operation mode_guard
    current_snapshot read_snapshot parse_mode parse_version require_no_pending_switch
    create_operation validate_initial_status delivery_taken new_operation new_artifacts
started = (_, refl)

start_worker-bound_example :
    (exporting.0.runtime.pending ≡ none)
    × (source ≡ required_mode exporting.1.type)
    × (find_snapshot exporting.1.id (start_worker [] 1 "w1" 5 exporting.0).1.snapshots
        ≡ some in_source)
start_worker-bound_example =
    start_worker-bound [] started.0 1 "w1" 5 exporting.0 exporting.1 in_source exporting.5
      exporting.3 started.1

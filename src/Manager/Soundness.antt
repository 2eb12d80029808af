-- ===== src/Manager/Soundness.antt =====
-- What holds of every row between two transactions, and that the functions on one row keep it.
use harbor_transfer_portal.Base.{
  ℕ, ◌+◌, ◌≤◌, ◌≡◌, refl, Bool, true, false, is_some, length, length-map, ok, arith, String, Option,
  some, none, if◌then◌else◌, sym, ◌∙◌,
}
use mathlib.Core.Path.{subst}
use harbor_transfer_portal.Domain.Status.{
  OperationType, import, OperationStatus, ArtifactStatus, failed, rejected, cancelled, completed,
  status_in,
}
use harbor_transfer_portal.Domain.Transitions.{terminal_states, validate_transition}
use harbor_transfer_portal.Domain.Transitions.Lifecycle.{next_phase}
use harbor_transfer_portal.Manager.Model.{Operation, check_transition}
use harbor_transfer_portal.Manager.Artifacts.{
  tally, recalculate_counts, fail_if_running, fail_running_artifacts,
}
use harbor_transfer_portal.Manager.Context.{moved}
use harbor_transfer_portal.Manager.Service.{stopped}

-- The statuses that an operation of each type can have.
abbrev pub in_lifecycle : OperationType → OperationStatus → Bool
in_lifecycle k completed = true
in_lifecycle k failed = true
in_lifecycle k cancelled = true
in_lifecycle import rejected = true
in_lifecycle k s = is_some (next_phase k s)

-- The counters are those of the artifacts.
pub record IsCounted (op : Operation) : Type 0 where
  pub successful :
      op.successful_artifacts
      ≡ tally ArtifactStatus.imported op.artifacts + tally ArtifactStatus.verified op.artifacts
  pub failed_ones : op.failed_artifacts ≡ tally ArtifactStatus.failed op.artifacts
  pub skipped_ones : op.skipped_artifacts ≡ tally ArtifactStatus.skipped op.artifacts
  pub conflicts : op.conflict_artifacts ≡ tally ArtifactStatus.conflict op.artifacts

pub record IsSound (op : Operation) : Type 0 where
  pub on_route : in_lifecycle op.type op.status ≡ true
  pub dated : is_some op.finished_at ≡ status_in op.status terminal_states
  pub counted : IsCounted op
  pub total : op.total_artifacts ≡ length op.artifacts
  pub progress : op.progress_current ≤ op.progress_total

pub recalculate_counts-IsCounted : (op : Operation) → IsCounted (recalculate_counts op)
unfolding recalculate_counts
recalculate_counts-IsCounted op = record {
  successful = refl;
  failed_ones = refl;
  skipped_ones = refl;
  conflicts = refl;
}

-- An operation on its route can always be failed or cancelled, until it has ended.
pub stop_allowed :
    (k : OperationType) (s : OperationStatus)
    → in_lifecycle k s ≡ true
    → status_in s terminal_states ≡ false
    → (check_transition k s failed ≡ ok tt) × (check_transition k s cancelled ≡ ok tt)
unfolding check_transition validate_transition
stop_allowed k s h n = ground arith

accepted_on_route :
    (k : OperationType) (s t : OperationStatus)
    → check_transition k s t ≡ ok tt
    → (in_lifecycle k t ≡ true) × (status_in s terminal_states ≡ false)
unfolding check_transition validate_transition
accepted_on_route k s t h = ground arith

IsCounted-same :
    (op op' : Operation)
    → IsCounted op
    → op'.artifacts ≡ op.artifacts
    → op'.successful_artifacts ≡ op.successful_artifacts
    → op'.failed_artifacts ≡ op.failed_artifacts
    → op'.skipped_artifacts ≡ op.skipped_artifacts
    → op'.conflict_artifacts ≡ op.conflict_artifacts
    → IsCounted op'
IsCounted-same op op' h a s f k c = record {
  successful = rw (s, a) h.successful;
  failed_ones = rw (f, a) h.failed_ones;
  skipped_ones = rw (k, a) h.skipped_ones;
  conflicts = rw (c, a) h.conflicts;
}

-- A change of none of the columns that `IsSound` speaks of.
pub IsSound-same :
    (op op' : Operation)
    → IsSound op
    → op'.type ≡ op.type
    → op'.status ≡ op.status
    → op'.finished_at ≡ op.finished_at
    → op'.total_artifacts ≡ op.total_artifacts
    → op'.progress_current ≤ op'.progress_total
    → op'.artifacts ≡ op.artifacts
    → IsCounted op'
    → IsSound op'
IsSound-same op op' h k s f t p a c = record {
  on_route = rw (k, s) h.on_route;
  dated = rw (f, s) h.dated;
  counted = c;
  total = rw (t, a) h.total;
  progress = p;
}

finished_when :
    (ends : Bool) (old : Option ℕ) (now : ℕ)
    → is_some old ≡ false
    → is_some (if ends then some now else old) ≡ ends
finished_when true old now h = refl
finished_when false old now h = h

pub moved-IsSound :
    (op : Operation) (target : OperationStatus) (now : ℕ)
    → IsSound op
    → check_transition op.type op.status target ≡ ok tt
    → IsSound (moved target now op)
unfolding moved
moved-IsSound op target now h e = record {
  on_route = (accepted_on_route op.type op.status target e).0;
  dated =
      finished_when (status_in target terminal_states) op.finished_at now
        (h.dated ∙ (accepted_on_route op.type op.status target e).1);
  counted = IsCounted-same op (moved target now op) h.counted refl refl refl refl refl;
  total = h.total;
  progress = h.progress;
}

pub stopped-IsSound :
    (op : Operation) (target : OperationStatus) (code message artifact_message : String) (now : ℕ)
    → IsSound op
    → status_in target terminal_states ≡ true
    → check_transition op.type op.status target ≡ ok tt
    → IsSound (stopped target code message artifact_message now op)
unfolding stopped recalculate_counts fail_running_artifacts
stopped-IsSound op target code message artifact_message now h t e = record {
  on_route = (accepted_on_route op.type op.status target e).0;
  dated = sym t;
  counted = record { successful = refl; failed_ones = refl; skipped_ones = refl; conflicts = refl };
  total = h.total ∙ sym (length-map (fail_if_running code artifact_message now) op.artifacts);
  progress = h.progress;
}

-- What `IsSound` reads of a row.
abbrev pub essence : Operation → Operation
essence op = record op {
  details = record {
    delivery_id = none;
    actor_user_id = none;
    actor_username = "";
    comment = none;
    harbor_profile_id = none;
    harbor_profile_name = none;
    harbor_profile_url = none;
  };
  started_at = none;
  error_code = none;
  error_message = none;
  worker_token = none;
  worker_started_at = none;
  heartbeat_at = none;
  cancel_requested_at = none;
}

essence-IsSound : (op : Operation) → IsSound op → IsSound (essence op)
essence-IsSound op h = record {
  on_route = h.on_route;
  dated = h.dated;
  counted = record {
    successful = h.counted.successful;
    failed_ones = h.counted.failed_ones;
    skipped_ones = h.counted.skipped_ones;
    conflicts = h.counted.conflicts;
  };
  total = h.total;
  progress = h.progress;
}

-- A change of the other columns.
pub IsSound-touched : (op op' : Operation) → IsSound op → essence op' ≡ essence op → IsSound op'
IsSound-touched op op' h e =
    let s : IsSound (essence op') = subst IsSound (sym e) (essence-IsSound op h) in
    record {
      on_route = s.on_route;
      dated = s.dated;
      counted = record {
        successful = s.counted.successful;
        failed_ones = s.counted.failed_ones;
        skipped_ones = s.counted.skipped_ones;
        conflicts = s.counted.conflicts;
      };
      total = s.total;
      progress = s.progress;
    }

-- The counters are computed anew, and the artifacts may have changed, but not their number.
pub recalculated-IsSound :
    (op op' : Operation)
    → IsSound op
    → op'.type ≡ op.type
    → op'.status ≡ op.status
    → op'.finished_at ≡ op.finished_at
    → op'.total_artifacts ≡ op.total_artifacts
    → length op'.artifacts ≡ length op.artifacts
    → op'.progress_current ≤ op'.progress_total
    → IsSound (recalculate_counts op')
unfolding recalculate_counts
recalculated-IsSound op op' h k s f t a p = record {
  on_route = rw (k, s) h.on_route;
  dated = rw (f, s) h.dated;
  counted = recalculate_counts-IsCounted op';
  total = rw (t, a) h.total;
  progress = p;
}

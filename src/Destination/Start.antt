-- ===== src/Destination/Start.antt =====
-- start_import of ImportDestinationPlanOrchestrator, to the submission of its worker. The row is
-- read when the call begins and again in the session that stores the choices.
use harbor_transfer_portal.Base.{
  Bool, List, Option, Result, String, any, err, none, not, ok, refuse_if, some, ℕ, ◌&&◌, ◌>>=◌,
  ◌>>◌,
}
use harbor_transfer_portal.Bundle.Text.{Text, among, same_text}
use harbor_transfer_portal.Destination.Identity.{Hashes}
use harbor_transfer_portal.Destination.Model.{DestinationPlan, is_conflict}
use harbor_transfer_portal.Destination.Persisted.{
  ImportPolicy, ImportPreview, ImportRow, PlanResult, Stored, import_row, invalid, is_bound_plan,
  is_ready, missing, persisted_destination_plan, plan_from_policy, stored,
}
use harbor_transfer_portal.Manager.Model.{Db, Failure, manager_error}
use harbor_transfer_portal.Manager.Workers.{submit}
use harbor_transfer_portal.Profiles.Model.{ProfileStore}
use harbor_transfer_portal.Profiles.Service.{assert_operation_binding}

pub record ImportSettings : Type 0 where
  pub on_target : Bool
  pub import_allow_overwrite : Bool

pub record StartRequest : Type 0 where
  pub actor_username : Text
  pub overwrite_conflicts : Bool
  pub skip_conflicts : Bool
  pub destination_plan_id : Option Text
  pub requested_at : ℕ

abbrev pub required_plan : Option DestinationPlan → PlanResult DestinationPlan
required_plan none = err "import_destination_plan_not_ready"
required_plan (some plan) = ok plan

abbrev pub given_id : Option Text → PlanResult Text
given_id none = err "import_destination_plan_required"
given_id (some plan_id) = ok plan_id

abbrev pub has_conflict : DestinationPlan → Bool
has_conflict plan = any (λ item. is_conflict item.classification) plan.artifacts

-- The guards on the plan that the caller confirmed.
unfoldable pub check_confirmed :
    ImportSettings → StartRequest → DestinationPlan → PlanResult (Unit {0})
check_confirmed settings request plan = do
  plan_id ← given_id request.destination_plan_id
  refuse_if (not (same_text plan_id plan.plan_id)) "import_destination_plan_stale"
  refuse_if (not (same_text plan.actor_username request.actor_username))
      "import_destination_plan_actor_mismatch"
  refuse_if (not plan.valid) "import_destination_plan_invalid"
  refuse_if (request.overwrite_conflicts && request.skip_conflicts) "import_conflict_policy_invalid"
  refuse_if (has_conflict plan && not request.overwrite_conflicts && not request.skip_conflicts)
      "import_conflict_blocked"
  refuse_if (request.overwrite_conflicts && not settings.import_allow_overwrite)
      "import_overwrite_disabled"

abbrev pub preview_or_missing : Option ImportPreview → PlanResult ImportPreview
preview_or_missing none = err "import_preview_not_ready"
preview_or_missing (some preview) = ok preview

abbrev pub policy_of : Stored ImportPolicy → PlanResult (Option ImportPolicy)
policy_of missing = ok none
policy_of invalid = err "import_destination_plan_invalid"
policy_of (stored policy) = ok (some policy)

-- The policy, and the plan in it if it is the confirmed one.
abbrev pub same_plan :
    DestinationPlan
    → Option ImportPolicy
    → Option DestinationPlan
    → PlanResult (ImportPolicy × DestinationPlan)
same_plan plan (some policy) (some persisted) = do
  refuse_if (not (same_text persisted.plan_id plan.plan_id)) "import_destination_plan_stale"
  ok (policy, persisted)
same_plan plan _ _ = err "import_destination_plan_stale"

abbrev pub plan_of_policy : Hashes → Option ImportPolicy → PlanResult (Option DestinationPlan)
plan_of_policy hashes none = ok none
plan_of_policy hashes (some policy) = plan_from_policy hashes policy

-- The choices that are stored in the policy.
unfoldable pub confirm : StartRequest → ImportRow → ImportPolicy → DestinationPlan → ImportRow
confirm request row policy plan = record row {
  import_policy = stored (record policy {
    confirmed = some (record {
      bundle_sha256 = row.bundle_sha256;
      destination_plan_hash = plan.plan_hash;
      overwrite_conflicts = request.overwrite_conflicts;
      skip_conflicts = request.skip_conflicts;
      requested_by = request.actor_username;
      requested_at = request.requested_at;
    });
  });
}

-- The session: the row as it is now against the confirmed plan.
unfoldable pub confirm_in_session :
    Hashes → List Text → StartRequest → DestinationPlan → Option ImportRow → PlanResult ImportRow
confirm_in_session hashes trusted request plan found = do
  row ← import_row found
  refuse_if (not (is_ready row.bound_row.status)) "import_not_ready"
  preview ← preview_or_missing row.import_preview
  refuse_if (not (among preview.signing_key_fingerprint trusted)) "import_signing_key_untrusted"
  policy ← policy_of row.import_policy
  read ← plan_of_policy hashes policy
  persisted ← same_plan plan policy read
  refuse_if
      (not (
        is_bound_plan (persisted.1) row
        && same_text (persisted.1).actor_username request.actor_username))
      "import_destination_plan_stale"
  ok (confirm request row (persisted.0) (persisted.1))

-- start_import, up to the commit of the choices
unfoldable pub confirm_import :
    Hashes
    → ImportSettings
    → ProfileStore
    → List Text
    → StartRequest
    → Option ImportRow
    → Option ImportRow
    → PlanResult ImportRow
confirm_import hashes settings profiles trusted request seen found = do
  refuse_if (not settings.on_target) "import_wrong_contour"
  row ← import_row seen
  profile ← assert_operation_binding profiles row.bound_row
  read ← persisted_destination_plan hashes row
  plan ← required_plan read
  check_confirmed settings request plan
  confirm_in_session hashes trusted request plan found

-- The row that was committed, if any, and what submitting its worker gives: the keys of the running
-- tasks and the operations after it, or the code of the error that leaves the call.
abbrev pub StartResult : Type 0
StartResult = Option ImportRow × Result Failure (List ℕ × Db)

abbrev pub submitted : List ℕ → String → ℕ → Db → PlanResult ImportRow → StartResult
submitted tasks worker_token now db (err code) = (none, err (manager_error code))
submitted tasks worker_token now db (ok row) =
    (some row, submit tasks row.bound_row.id worker_token now db)

-- start_import: an ImportOrchestrationError is told by its code, which for an error of submit is the
-- code of that
unfoldable pub start_import :
    Hashes
    → ImportSettings
    → ProfileStore
    → List Text
    → StartRequest
    → Option ImportRow
    → Option ImportRow
    → List ℕ
    → String
    → ℕ
    → Db
    → StartResult
start_import hashes settings profiles trusted request seen found tasks worker_token now db =
    submitted tasks worker_token now db
      (confirm_import hashes settings profiles trusted request seen found)

-- ===== src/Destination/Started.antt =====
-- What has to hold for an import to be started.
use harbor_transfer_portal.Destination.Persisted.{is_ready}
use harbor_transfer_portal.Destination.Session.{
  confirm_in_session-IsSession, read-uncolliding, same_by,
}
use harbor_transfer_portal.Base.{then-ok}
use harbor_transfer_portal.Destination.Persisted.{persisted_destination_plan}
use harbor_transfer_portal.Destination.Start.{required_plan, confirm_import}
use harbor_transfer_portal.Destination.Valid.{uncolliding-once}
use harbor_transfer_portal.Profiles.Model.{HarborProfile, ProfileStore}
use harbor_transfer_portal.Profiles.Service.{assert_operation_binding}
use harbor_transfer_portal.Destination.Persisted.{import_row}
use harbor_transfer_portal.Destination.Start.{given_id}
use harbor_transfer_portal.Base.{
  Bool, List, Option, ap, arith, bind-ok, false, imply_iff, negated_iff, none, not, ok,
  refuse_if-ok, refuse_if_passed, returned, some, true, ◌&&◌, ◌||◌, ◌∙◌, ◌≡◌,
}
use harbor_transfer_portal.Bundle.Text.{Text, among, same_text}
use harbor_transfer_portal.Destination.Collisions.{indices_at}
use harbor_transfer_portal.Destination.Coordinates.{Coordinate, has_several}
use harbor_transfer_portal.Destination.Identity.{Hashes}
use harbor_transfer_portal.Destination.Model.{DestinationPlan}
use harbor_transfer_portal.Destination.Persisted.{
  ImportPolicy, ImportPreview, ImportRow, is_bound_plan, plan_from_policy, stored,
}
use harbor_transfer_portal.Destination.Start.{
  ImportSettings, StartRequest, check_confirmed, confirm, has_conflict,
}

-- The import that is started: the plan that the caller confirmed, as it was read when the call
-- began, and the plan of the policy in the session.
pub record IsConfirmed (hashes : Hashes) (settings : ImportSettings) (trusted : List Text)
    (request : StartRequest) (profiles : ProfileStore) (seen found : Option ImportRow)
    (after : ImportRow) : Type 0 where
  pub target : settings.on_target ≡ true
  pub first_row : ImportRow
  pub seen_row : import_row seen ≡ ok first_row
  pub profile : HarborProfile
  pub same_profile : assert_operation_binding profiles first_row.bound_row ≡ ok profile
  pub plan : DestinationPlan
  pub seen_plan : persisted_destination_plan hashes first_row ≡ ok (some plan)
  pub row : ImportRow
  pub there : import_row found ≡ ok row
  pub policy : ImportPolicy
  pub persisted : DestinationPlan
  pub preview : ImportPreview
  pub confirmed : request.destination_plan_id ≡ some plan.plan_id
  pub confirmed_by : plan.actor_username ≡ request.actor_username
  pub usable : plan.valid ≡ true
  pub decided :
      has_conflict plan ≡ true → (request.overwrite_conflicts || request.skip_conflicts) ≡ true
  pub exclusive : (request.overwrite_conflicts && request.skip_conflicts) ≡ false
  pub overwrite : request.overwrite_conflicts ≡ true → settings.import_allow_overwrite ≡ true
  pub ready_row : is_ready row.bound_row.status ≡ true
  pub in_policy : row.import_policy ≡ stored policy
  pub read : plan_from_policy hashes policy ≡ ok (some persisted)
  pub same_id : persisted.plan_id ≡ plan.plan_id
  pub bound_plan : is_bound_plan persisted row ≡ true
  pub same_actor : persisted.actor_username ≡ request.actor_username
  pub once : (c : Coordinate) → has_several (indices_at c persisted.artifacts) ≡ false
  pub verified : row.import_preview ≡ some preview
  pub signer : among preview.signing_key_fingerprint trusted ≡ true
  pub recorded : after ≡ confirm request row policy persisted

-- The guards on the confirmed plan.
pub record IsChecked (settings : ImportSettings) (request : StartRequest) (plan : DestinationPlan)
    : Type 0 where
  pub confirmed : request.destination_plan_id ≡ some plan.plan_id
  pub confirmed_by : plan.actor_username ≡ request.actor_username
  pub usable : plan.valid ≡ true
  pub decided :
      has_conflict plan ≡ true → (request.overwrite_conflicts || request.skip_conflicts) ≡ true
  pub exclusive : (request.overwrite_conflicts && request.skip_conflicts) ≡ false
  pub overwrite : request.overwrite_conflicts ≡ true → settings.import_allow_overwrite ≡ true

given : (o : Option Text) {t : Text} → given_id o ≡ ok t → o ≡ some t
given none h = cc
given (some t) h = ap some (returned h)

decided_by : (a b c : Bool) → (a && not b && not c) ≡ false → a ≡ true → (b || c) ≡ true
decided_by a b c h k = ground arith

check_confirmed-IsChecked :
    (settings : ImportSettings) (request : StartRequest) (plan : DestinationPlan) {u : Unit {0}}
    → check_confirmed settings request plan ≡ ok u
    → IsChecked settings request plan
unfolding check_confirmed
check_confirmed-IsChecked settings request plan h =
    let (plan_id, p0, h0) = bind-ok (given_id request.destination_plan_id) _ h in
    let (p1, h1) =
      refuse_if-ok (not (same_text plan_id plan.plan_id)) "import_destination_plan_stale" _ h0 in
    let (p2, h2) =
      refuse_if-ok (not (same_text plan.actor_username request.actor_username))
        "import_destination_plan_actor_mismatch" _ h1 in
    let (p3, h3) = refuse_if-ok (not plan.valid) "import_destination_plan_invalid" _ h2 in
    let (p4, h4) =
      refuse_if-ok (request.overwrite_conflicts && request.skip_conflicts)
        "import_conflict_policy_invalid" _ h3 in
    let (p5, h5) =
      refuse_if-ok
        (has_conflict plan && not request.overwrite_conflicts && not request.skip_conflicts)
        "import_conflict_blocked" _ h4 in
    let p6 =
      refuse_if_passed (request.overwrite_conflicts && not settings.import_allow_overwrite)
        "import_overwrite_disabled" h5 in
    record {
      confirmed = given request.destination_plan_id p0 ∙ ap some (same_by plan_id plan.plan_id p1);
      confirmed_by = same_by plan.actor_username request.actor_username p2;
      usable = (negated_iff plan.valid).0 p3;
      decided =
          decided_by (has_conflict plan) request.overwrite_conflicts request.skip_conflicts p5;
      exclusive = p4;
      overwrite = (imply_iff request.overwrite_conflicts settings.import_allow_overwrite).0 p6;
    }

plan_known :
    (o : Option DestinationPlan) {plan : DestinationPlan}
    → required_plan o ≡ ok plan
    → o ≡ some plan
plan_known none h = cc
plan_known (some p) h = ap some (returned h)

-- An import is started only for the plan that its caller confirmed.
pub confirm_import-IsConfirmed :
    (hashes : Hashes) (settings : ImportSettings) (profiles : ProfileStore) (trusted : List Text)
    (request : StartRequest) (seen found : Option ImportRow) (after : ImportRow)
    → confirm_import hashes settings profiles trusted request seen found ≡ ok after
    → IsConfirmed hashes settings trusted request profiles seen found after
unfolding confirm_import plan_from_policy
confirm_import-IsConfirmed hashes settings profiles trusted request seen found after h =
    let (p0, h0) = refuse_if-ok (not settings.on_target) "import_wrong_contour" _ h in
    let (row, p1, h1) = bind-ok (import_row seen) _ h0 in
    let (profile, p2, h2) = bind-ok (assert_operation_binding profiles row.bound_row) _ h1 in
    let (read, p3, h3) = bind-ok (persisted_destination_plan hashes row) _ h2 in
    let (plan, p4, h4) = bind-ok (required_plan read) _ h3 in
    let (p5, h5) = then-ok (check_confirmed settings request plan) _ h4 in
    let c = check_confirmed-IsChecked settings request plan p5 in
    let s = confirm_in_session-IsSession hashes trusted request plan found h5 in
    record {
      target = (negated_iff settings.on_target).0 p0;
      first_row = row;
      seen_row = p1;
      profile = profile;
      same_profile = p2;
      plan = plan;
      seen_plan = p3 ∙ ap (λ o. ok o) (plan_known read p4);
      row = s.row;
      there = s.there;
      policy = s.policy;
      persisted = s.persisted;
      preview = s.preview;
      confirmed = c.confirmed;
      confirmed_by = c.confirmed_by;
      usable = c.usable;
      decided = c.decided;
      exclusive = c.exclusive;
      overwrite = c.overwrite;
      ready_row = s.ready_row;
      in_policy = s.in_policy;
      read = s.read;
      same_id = s.same_id;
      bound_plan = s.bound_plan;
      same_actor = s.same_actor;
      once = λ k.
          uncolliding-once s.persisted.artifacts k
            (read-uncolliding hashes s.policy s.policy.destination_plan s.read);
      verified = s.verified;
      signer = s.signer;
      recorded = s.recorded;
    }

-- ===== src/Destination/Session.antt =====
-- The guards of start_import in the session that stores its choices.
use harbor_transfer_portal.Base.{[], refl, ℕ, ◌==◌, ◌∷◌}
use harbor_transfer_portal.Bundle.Text.{is_empty}
use harbor_transfer_portal.Destination.Coordinates.{colliding_artifact_indices}
use harbor_transfer_portal.Destination.Identity.{canonical_plan_hash, normalize_derived_fields}
use harbor_transfer_portal.Destination.Model.{ImportDestinationPlanRequest}
use harbor_transfer_portal.Destination.Persisted.{
  checked_plan, validated, validated_mapping, plan_in_version, policy_version,
}
use mathlib.Core.Path.{subst}
use harbor_transfer_portal.Base.{and_true_iff, sym}
use harbor_transfer_portal.Destination.Persisted.{Stored, import_row, invalid, is_ready, missing}
use harbor_transfer_portal.Destination.Start.{
  confirm_in_session, plan_of_policy, policy_of, preview_or_missing, same_plan,
}
use harbor_transfer_portal.Base.{
  List, Option, ap, bind-ok, false, negated_iff, none, not, ok, refuse_if-ok, returned, some, true,
  ◌&&◌, ◌≡◌,
}
use harbor_transfer_portal.Bundle.Text.{Text, among, same_text, same_text_iff}
use harbor_transfer_portal.Destination.Identity.{Hashes}
use harbor_transfer_portal.Destination.Model.{DestinationPlan}
use harbor_transfer_portal.Destination.Persisted.{
  ImportPolicy, ImportPreview, ImportRow, is_bound_plan, plan_from_policy, stored,
}
use harbor_transfer_portal.Destination.Start.{StartRequest, confirm}
use harbor_transfer_portal.Manager.Service.{request}

pub same_by : (s t : Text) → not (same_text s t) ≡ false → s ≡ t
same_by s t h = (same_text_iff s t).0 ((negated_iff (same_text s t)).0 h)

-- A call that went through the guards of the session.
pub record IsSession (hashes : Hashes) (trusted : List Text) (request : StartRequest)
    (plan : DestinationPlan) (found : Option ImportRow) (after : ImportRow) : Type 0 where
  pub row : ImportRow
  pub there : import_row found ≡ ok row
  pub policy : ImportPolicy
  pub persisted : DestinationPlan
  pub preview : ImportPreview
  pub ready_row : is_ready row.bound_row.status ≡ true
  pub in_policy : row.import_policy ≡ stored policy
  pub read : plan_from_policy hashes policy ≡ ok (some persisted)
  pub same_id : persisted.plan_id ≡ plan.plan_id
  pub bound_plan : is_bound_plan persisted row ≡ true
  pub same_actor : persisted.actor_username ≡ request.actor_username
  pub verified : row.import_preview ≡ some preview
  pub signer : among preview.signing_key_fingerprint trusted ≡ true
  pub recorded : after ≡ confirm request row policy persisted

kept_preview_known :
    (o : Option ImportPreview) {p : ImportPreview} → preview_or_missing o ≡ ok p → o ≡ some p
kept_preview_known none h = cc
kept_preview_known (some q) h = ap some (returned h)

-- The policy and its plan are the ones that same_plan gives.
record IsSame (hashes : Hashes) (plan : DestinationPlan) (s : Stored ImportPolicy)
    (pair : ImportPolicy × DestinationPlan) : Type 0 where
  in_policy : s ≡ stored (pair.0)
  read : plan_from_policy hashes (pair.0) ≡ ok (some (pair.1))
  same_id : (pair.1).plan_id ≡ plan.plan_id

same_plan-IsSame :
    (hashes : Hashes) (plan : DestinationPlan) (s : Stored ImportPolicy)
    (policy : Option ImportPolicy) (read : Option DestinationPlan)
    {pair : ImportPolicy × DestinationPlan}
    → policy_of s ≡ ok policy
    → plan_of_policy hashes policy ≡ ok read
    → same_plan plan policy read ≡ ok pair
    → IsSame hashes plan s pair
same_plan-IsSame hashes plan missing (some policy) read a b c = cc
same_plan-IsSame hashes plan invalid (some policy) read a b c = cc
same_plan-IsSame hashes plan (stored found) (some policy) (some persisted) a b c =
    let e : some found ≡ some policy = returned a in
    let f : found ≡ policy = cc in
    let (p, q) =
      refuse_if-ok (not (same_text persisted.plan_id plan.plan_id)) "import_destination_plan_stale"
        _ c in
    subst (λ pair. IsSame hashes plan (stored found) pair) (returned q)
      (record {
        in_policy = ap (λ x. stored x) f;
        read = b;
        same_id = same_by persisted.plan_id plan.plan_id p;
      })
same_plan-IsSame hashes plan s (some policy) none a b c = cc
same_plan-IsSame hashes plan s none read a b c = cc

pub confirm_in_session-IsSession :
    (hashes : Hashes) (trusted : List Text) (request : StartRequest) (plan : DestinationPlan)
    (found : Option ImportRow) {after : ImportRow}
    → confirm_in_session hashes trusted request plan found ≡ ok after
    → IsSession hashes trusted request plan found after
unfolding confirm_in_session
confirm_in_session-IsSession hashes trusted request plan found h =
    let (row, p0, h0) = bind-ok (import_row found) _ h in
    let (p1, h1) = refuse_if-ok (not (is_ready row.bound_row.status)) "import_not_ready" _ h0 in
    let (preview, p2, h2) = bind-ok (preview_or_missing row.import_preview) _ h1 in
    let (p3, h3) =
      refuse_if-ok (not (among preview.signing_key_fingerprint trusted))
        "import_signing_key_untrusted" _ h2 in
    let (policy, p4, h4) = bind-ok (policy_of row.import_policy) _ h3 in
    let (read, p5, h5) = bind-ok (plan_of_policy hashes policy) _ h4 in
    let (pair, p6, h6) = bind-ok (same_plan plan policy read) _ h5 in
    let (p7, h7) =
      refuse_if-ok
        (not
          (is_bound_plan (pair.1) row && same_text (pair.1).actor_username request.actor_username))
        "import_destination_plan_stale" _ h6 in
    let (a, b) =
      (and_true_iff (is_bound_plan (pair.1) row)
          (same_text (pair.1).actor_username request.actor_username)).0
        ((negated_iff (
            is_bound_plan (pair.1) row
            && same_text (pair.1).actor_username request.actor_username)).0
          p7) in
    let s = same_plan-IsSame hashes plan row.import_policy policy read p4 p5 p6 in
    record {
      row = row;
      there = p0;
      policy = pair.0;
      persisted = pair.1;
      preview = preview;
      ready_row = (negated_iff (is_ready row.bound_row.status)).0 p1;
      in_policy = s.in_policy;
      read = s.read;
      same_id = s.same_id;
      bound_plan = a;
      same_actor = (same_text_iff (pair.1).actor_username request.actor_username).0 b;
      verified = kept_preview_known row.import_preview p2;
      signer = (negated_iff (among preview.signing_key_fingerprint trusted)).0 p3;
      recorded = sym (returned h7);
    }

empty_known : (is : List ℕ) → not (is_empty is) ≡ false → is ≡ []
empty_known [] h = refl
empty_known (i ∷ is) h = cc

-- A plan that is read has no collisions.
checked-uncolliding :
    (hashes : Hashes) (mapping : ImportDestinationPlanRequest) (read : DestinationPlan)
    {plan : DestinationPlan}
    → checked_plan hashes mapping read ≡ ok (some plan)
    → colliding_artifact_indices plan.artifacts ≡ []
checked-uncolliding hashes mapping read {plan = plan} h =
    let (p1, h1) =
      refuse_if-ok (not (same_text read.plan_hash (canonical_plan_hash hashes mapping read)))
        "import_destination_plan_invalid" _ h in
    let (p2, h2) =
      refuse_if-ok (not (is_empty (colliding_artifact_indices read.artifacts)))
        "import_destination_plan_invalid" _ h1 in
    let e = empty_known (colliding_artifact_indices read.artifacts) p2 in
    let same : some read ≡ some plan = returned h2 in
    let x : read ≡ plan = cc in subst (λ p. colliding_artifact_indices p.artifacts ≡ []) x e

pub read-uncolliding :
    (hashes : Hashes) (policy : ImportPolicy) (raw : Option Text) {plan : DestinationPlan}
    → plan_in_version hashes policy raw ≡ ok (some plan)
    → colliding_artifact_indices plan.artifacts ≡ []
read-uncolliding hashes policy none h = let e = returned h in cc
read-uncolliding hashes policy (some raw) h =
    let (p0, h0) =
      refuse_if-ok (not (policy.version == policy_version)) "import_destination_plan_invalid" _ h in
    let (mapping, p1, h1) = bind-ok (validated_mapping hashes policy.mapping_request) _ h0 in
    let (plan, p2, h2) = bind-ok (validated (hashes.load_plan raw)) _ h1 in
    checked-uncolliding hashes mapping (normalize_derived_fields hashes plan) h2

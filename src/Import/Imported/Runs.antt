-- ===== src/Import/Imported/Runs.antt =====
-- A loop of an import without failures is a run of such steps.
use mathlib.Core.Path.{subst}
use harbor_transfer_portal.Base.{
  Bool, List, Option, [], all, and_true_iff, ap, arith, err, false, if◌then◌else◌, negated_iff,
  none, not, ok, refl, refuse_if-ok, returned, some, suc, true, ℕ, ◌∷◌, ◌≡◌, ◌>>=◌,
}
use harbor_transfer_portal.Bundle.Manifest.{ArtifactDescriptor}
use harbor_transfer_portal.Bundle.Text.{Text, same_text, same_text_iff}
use harbor_transfer_portal.Destination.Planning.{
  HelmChartReference, TargetInspection, TargetState, absent, conflicting_digest, present,
  preview_state, same_digest,
}
use harbor_transfer_portal.Import.Loop.{
  ConflictPolicy, Ended, Progress, PushResult, Raising, Registry, TargetReference, after_preflight,
  cancelled, caught, go_on, import_artifact, import_artifacts, import_to, inspect, is_failure,
  left_at, mutate, mutation_outcome, on_conflict, preflight_target, pushed_digest, target_reference,
  through, to_chart, to_image, uncaught,
}
use harbor_transfer_portal.Import.Imported.{
  IsArtifactStep, IsImportedAs, IsPushed, IsRun, already_there, chart_pushed, conflict_skipped,
  image_pushed, no_more, one_more, put, replaced, verified_as,
}

module _ {S : Type 0} (registry : Registry S) (policy : ConflictPolicy) where
  chart-IsPushed :
      (s : S) (d : ArtifactDescriptor) (r : HelmChartReference) (allow_existing : Bool)
      (p : S × Raising PushResult) {s' : S} {digest : Text}
      → registry.push_chart s d.payload_path r d.source_digest allow_existing ≡ p
      → p.0 ≡ s'
      → p.1 >>= (λ x. pushed_digest registry d x) ≡ ok digest
      → IsPushed registry s d allow_existing s' digest (to_chart r)
  chart-IsPushed s d r allow_existing (t, err e) k q h = cc
  chart-IsPushed s d r allow_existing (t, ok pushed) k q h =
      let (b, e) = refuse_if-ok (not (same_text pushed.package_sha256 d.payload_sha256)) _ _ h in
      chart_pushed r pushed
        (subst
          (λ t.
            registry.push_chart s d.payload_path r d.source_digest allow_existing ≡ (t, ok pushed))
          q k)
        ((same_text_iff pushed.package_sha256 d.payload_sha256).0
          ((negated_iff (same_text pushed.package_sha256 d.payload_sha256)).0 b))
        (returned e)

  mutate-IsPushed :
      (s : S) (d : ArtifactDescriptor) (r : TargetReference) (allow_existing : Bool) {s' : S}
      {digest : Text}
      → mutate registry s d r allow_existing ≡ (s', ok digest)
      → IsPushed registry s d allow_existing s' digest r
  unfolding mutate
  mutate-IsPushed s d (to_image r) allow_existing h = image_pushed r h
  mutate-IsPushed s d (to_chart r) allow_existing h =
      chart-IsPushed s d r allow_existing
        (registry.push_chart s d.payload_path r d.source_digest allow_existing) refl
        (ap (λ x. x.0) h) (ap (λ x. x.1) h)

  -- The step that an outcome without a failure stands for.
  abbrev Imports : S → ArtifactDescriptor → TargetReference → TargetInspection → S × Ended → Type 0
  Imports s d r found (s', ok o) =
      is_failure o.status ≡ false → IsImportedAs registry policy s d r found o s'
  Imports s d r found (s', err status) = Unit {0}

  mutation-Imports :
      (s : S) (d : ArtifactDescriptor) (r : TargetReference) (found : TargetInspection)
      (allow_existing : Bool) (m : S × Raising Text)
      → mutate registry s d r allow_existing ≡ m
      → ((s' : S) (digest : Text)
          → IsPushed registry s d allow_existing s' digest r
          → IsImportedAs registry policy s d r found (verified_as digest) s')
      → Imports s d r found (m.0, mutation_outcome registry (m.1))
  unfolding is_failure
  mutation-Imports s d r found allow_existing (s', ok digest) h k =
      λ _. k s' digest (mutate-IsPushed s d r allow_existing h)
  mutation-Imports s d r found allow_existing (s', err (caught code)) h k = λ bad. cc
  mutation-Imports s d r found allow_existing (s', err uncaught) h k = tt

  on_conflict-Imports :
      (s : S) (d : ArtifactDescriptor) (r : TargetReference) (found : TargetInspection)
      → found.state ≡ conflicting_digest
      → Imports s d r found (on_conflict registry policy s d r found.digest)
  unfolding is_failure
  on_conflict-Imports s d r found c = chosen policy.overwrite policy.skip_conflicts refl refl
    where
      chosen :
          (over skip : Bool)
          → policy.overwrite ≡ over
          → policy.skip_conflicts ≡ skip
          → Imports s d r found (
              on_conflict registry
                (record { overwrite = over; skip_conflicts = skip })
                s
                d
                r
                found.digest)
      chosen true skip e f =
          mutation-Imports s d r found true (mutate registry s d r true) refl
            (λ s' digest p. replaced s' digest c e p)
      chosen false true e f = λ _. conflict_skipped c e f
      chosen false false e f = λ bad. cc

  after_preflight-Imports :
      (s : S) (d : ArtifactDescriptor) (r : TargetReference) (found : TargetInspection)
      → Imports s d r found
          (after_preflight registry policy s d r (ok (preview_state found.state, found.digest)))
  unfolding preview_state is_failure
  after_preflight-Imports s d r found = by_state found.state refl
    where
      by_state :
          (state : TargetState)
          → found.state ≡ state
          → Imports s d r found
              (after_preflight registry policy s d r (ok (preview_state state, found.digest)))
      by_state absent e =
          mutation-Imports s d r found false (mutate registry s d r false) refl
            (λ s' digest p. put s' digest e p)
      by_state same_digest e = λ _. already_there e
      by_state conflicting_digest e = on_conflict-Imports s d r found e
      by_state present e = λ bad. cc

  -- The step of an artifact.
  abbrev Steps : S → ArtifactDescriptor → S × Ended → Type 0
  Steps s d (s', ok o) = is_failure o.status ≡ false → IsArtifactStep registry policy s d o s'
  Steps s d (s', err status) = Unit {0}

  inspected-Steps :
      (s : S) (d : ArtifactDescriptor) (r : TargetReference) (m : Raising TargetInspection)
      → target_reference d ≡ some r
      → inspect registry s r d.source_digest ≡ m
      → Steps s d (
          after_preflight registry policy s d r (m >>= (λ i. ok (preview_state i.state, i.digest))))
  unfolding is_failure
  inspected-Steps s d r (err (caught code)) n h = λ bad. cc
  inspected-Steps s d r (err uncaught) n h = tt
  inspected-Steps s d r (ok found) n h =
      stepped (after_preflight registry policy s d r (ok (preview_state found.state, found.digest)))
        (after_preflight-Imports s d r found)
    where
      stepped : (m : S × Ended) → Imports s d r found m → Steps s d m
      stepped (s', ok o) k = λ good. record {
        reference = r;
        named = n;
        found = found;
        inspected = h;
        imported = k good;
      }
      stepped (s', err status) k = tt

  import_artifact-Steps :
      (s : S) (d : ArtifactDescriptor) → Steps s d (import_artifact registry policy s d)
  unfolding import_artifact preflight_target is_failure
  import_artifact-Steps s d = by_reference (target_reference d) refl
    where
      by_reference :
          (o : Option TargetReference)
          → target_reference d ≡ o
          → Steps s d (import_to registry policy s d o)
      by_reference none e = λ bad. cc
      by_reference (some r) e = inspected-Steps s d r (inspect registry s r d.source_digest) e refl

  go_on-IsRun :
      (s : S) (d : ArtifactDescriptor) (ds : List ArtifactDescriptor) (m : S × Ended)
      (rest : Progress S)
      → Steps s d m
      → (rest.end ≡ through
          → all (λ o. not (is_failure o.status)) rest.outcomes ≡ true
          → IsRun registry policy rest.registry (m.0) ds rest.outcomes)
      → (go_on (m.0) (m.1) rest).end ≡ through
      → all (λ o. not (is_failure o.status)) (go_on (m.0) (m.1) rest).outcomes ≡ true
      → IsRun registry policy
          (go_on (m.0) (m.1) rest).registry
          s
          (d ∷ ds)
          (go_on (m.0) (m.1) rest).outcomes
  go_on-IsRun s d ds (s', err status) rest k later e a = cc
  go_on-IsRun s d ds (s', ok o) rest k later e a =
      let (good, others) = (and_true_iff (not (is_failure o.status)) _).0 a in
      let g : is_failure o.status ≡ false = ground (arith, good) in one_more (k g) (later e others)

  step-IsRun :
      (s : S) (d : ArtifactDescriptor) (ds : List ArtifactDescriptor) (m : S × Ended)
      (rest : Progress S)
      → Steps s d m
      → (rest.end ≡ through
          → all (λ o. not (is_failure o.status)) rest.outcomes ≡ true
          → IsRun registry policy rest.registry (m.0) ds rest.outcomes)
      → (is_cancelled : Bool)
      → let p = if is_cancelled then left_at s cancelled else go_on (m.0) (m.1) rest in
        p.end ≡ through
        → all (λ o. not (is_failure o.status)) p.outcomes ≡ true
        → IsRun registry policy p.registry s (d ∷ ds) p.outcomes
  step-IsRun s d ds m rest k later true e a = cc
  step-IsRun s d ds m rest k later false e a = go_on-IsRun s d ds m rest k later e a

  -- A loop that went through all artifacts without a failure is such a run.
  pub import_artifacts-IsRun :
      (cancels : ℕ → Bool) (index : ℕ) (s : S) (ds : List ArtifactDescriptor)
      → (import_artifacts registry policy cancels index s ds).end ≡ through
      → all
          (λ o. not (is_failure o.status))
          (import_artifacts registry policy cancels index s ds).outcomes
        ≡ true
      → IsRun registry policy
          (import_artifacts registry policy cancels index s ds).registry
          s
          ds
          (import_artifacts registry policy cancels index s ds).outcomes
  unfolding import_artifacts
  import_artifacts-IsRun cancels index s [] e a = no_more
  import_artifacts-IsRun cancels index s (d ∷ ds) e a =
      let step = import_artifact registry policy s d in
      step-IsRun s d ds step (import_artifacts registry policy cancels (suc index) (step.0) ds)
        (import_artifact-Steps s d) (import_artifacts-IsRun cancels (suc index) (step.0) ds)
        (cancels index) e a

-- ===== src/Import/Counts.antt =====
-- The outcomes of the loop and the failures that it counts.
use mathlib.Core.Path.{subst}
use harbor_transfer_portal.Base.{
  ==_iff, Bool, Bool-cases, List, Result, [], all, ap, arith, bind-ok, both_hold, count, err,
  if◌then◌else◌, inl, inr, length, negated_iff, not, ok, refl, refuse_if-ok, returned, some, suc,
  sym, then-ok, true, ℕ, ◌==◌, ◌||◌, ◌∙◌, ◌∷◌, ◌≡◌,
}
use harbor_transfer_portal.Bundle.Manifest.{ArtifactDescriptor}
use harbor_transfer_portal.Bundle.Text.{same_text, same_text_iff}
use harbor_transfer_portal.Bundle.Verification.{BundleVerificationResult}
use harbor_transfer_portal.Destination.Model.{same_option}
use harbor_transfer_portal.Import.Imported.{IsRun}
use harbor_transfer_portal.Import.Imported.Runs.{import_artifacts-IsRun}
use harbor_transfer_portal.Import.Loop.{
  ConflictPolicy, Ended, LoopEnd, Outcome, Progress, Registry, cancelled, go_on, import_artifact,
  import_artifacts, is_failure, raised, through,
}
use harbor_transfer_portal.Import.Worker.{
  Ending, Finished, ImportTask, TaskError, assert_operation_profile, checked_bundle, crashed_ending,
  import_bundle, import_worker, loop_ending, settled,
}
use harbor_transfer_portal.Profiles.Model.{HarborProfile}
use harbor_transfer_portal.Profiles.Service.{ProfileResult, assert_operation_binding}

module _ {S : Type 0} (registry : Registry S) (policy : ConflictPolicy) where
  -- The failures of the loop are its outcomes that are failed or in conflict.
  pub import_artifacts-failures :
      (cancels : ℕ → Bool) (index : ℕ) (s : S) (ds : List ArtifactDescriptor)
      → let run = import_artifacts registry policy cancels index s ds in
        run.failures ≡ count (λ o. is_failure o.status) run.outcomes
  unfolding import_artifacts
  import_artifacts-failures cancels index s [] = refl
  import_artifacts-failures cancels index s (d ∷ ds) = elim (Bool-cases (cancels index)) [
    | inl e ↦ rw e refl
    | inr e ↦
        let step = import_artifact registry policy s d in
        rw e (
          go_on-failures (step.0) (step.1)
            (import_artifacts registry policy cancels (suc index) (step.0) ds)
            (import_artifacts-failures cancels (suc index) (step.0) ds))
  ]
    where
      go_on-failures :
          (t : S) (ended : Ended) (rest : Progress S)
          → rest.failures ≡ count (λ o. is_failure o.status) rest.outcomes
          → (go_on t ended rest).failures
            ≡ count (λ o. is_failure o.status) (go_on t ended rest).outcomes
      go_on-failures t (ok o) rest p = ap (λ n. if is_failure o.status then suc n else n) p
      go_on-failures t (err status) rest p = refl

no_failures :
    (os : List Outcome)
    → count (λ o. is_failure o.status) os ≡ 0
    → all (λ o. not (is_failure o.status)) os ≡ true
no_failures [] h = refl
no_failures (o ∷ os) h = elim (Bool-cases (is_failure o.status)) [
  | inl e ↦ let x = rw e at h in ground arith
  | inr e ↦ rw e (no_failures os (rw e at h))
]

-- What a completed import has done. The loop is a run from the state of TARGET before it, in which
-- every artifact of the verified bundle was there already, was passed over or was pushed.
pub record IsImported {S : Type 0} (registry : Registry S) (task : ImportTask) (before : S)
    (done : Finished S) : Type 0 where
  pub bundle : BundleVerificationResult
  pub verified_bundle : task.verified ≡ ok bundle
  pub extracted : task.has_extracted_root ≡ true
  pub archive : bundle.archive_sha256 ≡ task.preview.bundle_sha256
  pub delivery : bundle.manifest.delivery_id ≡ task.preview.source_delivery_id
  pub unchanged_archive : task.observed_sha256 ≡ task.preview.bundle_sha256
  pub profile : HarborProfile
  pub same_profile : assert_operation_binding task.profiles task.bound_row ≡ ok profile
  pub imported :
      IsRun registry task.policy done.registry before bundle.manifest.artifacts done.outcomes
  pub receipt : task.writes_receipt 0 ≡ ok tt

module _ {S : Type 0} (registry : Registry S) (task : ImportTask) (cancels : ℕ → Bool) (s : S) where
  settled-completed :
      (p : Progress S)
      → loop_ending task p.failures p.end ≡ ok tt
      → (p.end ≡ through) × (p.failures ≡ 0) × (task.writes_receipt 0 ≡ ok tt)
  unfolding settled
  settled-completed p h = by_end p.end refl h
    where
      by_end :
          (end : LoopEnd)
          → p.end ≡ end
          → loop_ending task p.failures end ≡ ok tt
          → (p.end ≡ through) × (p.failures ≡ 0) × (task.writes_receipt 0 ≡ ok tt)
      by_end through e h =
          let (w, h0) = then-ok (task.writes_receipt p.failures) _ h in
          let (b, h1) = refuse_if-ok (not (p.failures == 0)) _ _ h0 in
          let z = (==_iff p.failures 0).0 ((negated_iff (p.failures == 0)).0 b) in
          (e, z, ap task.writes_receipt (sym z) ∙ w)
      by_end cancelled e h = cc
      by_end (raised status) e h = cc

  bound_profile :
      (r : ProfileResult HarborProfile)
      → ◌≡◌ {A = Ending} (elim r [ ok profile ↦ ok tt | err code ↦ err crashed_ending ]) (ok tt)
      → (profile : HarborProfile) × (r ≡ ok profile)
  bound_profile (ok profile) h = (profile, refl)
  bound_profile (err code) h = cc

  started-completed :
      (r : Result TaskError BundleVerificationResult)
      → checked_bundle task ≡ r
      → (import_bundle registry task cancels s r).ending ≡ ok tt
      → IsImported registry task s (import_bundle registry task cancels s r)
  unfolding checked_bundle import_bundle
  started-completed (err e) h k = cc
  started-completed (ok bundle) h k =
      let (begun, ha) = then-ok task.begins _ h in
      let (bound, hb) = then-ok (assert_operation_profile task) _ ha in
      let (located, hc) = then-ok task.locates _ hb in
      let (q, of_profile) =
        bound_profile (assert_operation_binding task.profiles task.bound_row) bound in
      let (p0, h0) =
        refuse_if-ok
          (not (same_option (some task.observed_sha256) task.bundle_sha256)
            || not (same_text task.observed_sha256 task.preview.bundle_sha256))
          _ _ hc in
      let (found, p1, h1) = bind-ok task.verified _ h0 in
      let (p2, h2) =
        refuse_if-ok
          (not (same_text found.archive_sha256 task.preview.bundle_sha256)
            || not (same_text found.manifest.delivery_id task.preview.source_delivery_id))
          _ _ h1 in
      let (p3, h3) = refuse_if-ok (not task.has_extracted_root) _ _ h2 in
      let (p4, h4) =
        refuse_if-ok (not (task.artifact_count == length found.manifest.artifacts)) _ _ h3 in
      let (opened, h5) = then-ok task.opens_tools _ h4 in
      let e : found ≡ bundle = returned h5 in
      let (a, b) =
        both_hold (same_option (some task.observed_sha256) task.bundle_sha256)
          (same_text task.observed_sha256 task.preview.bundle_sha256) p0 in
      let (c, d) =
        both_hold (same_text found.archive_sha256 task.preview.bundle_sha256)
          (same_text found.manifest.delivery_id task.preview.source_delivery_id) p2 in
      let run = import_artifacts registry task.policy cancels 0 s bundle.manifest.artifacts in
      let (u, n, w) = settled-completed run k in
      let f =
        import_artifacts-failures registry task.policy cancels 0 s bundle.manifest.artifacts in
      record {
        bundle = bundle;
        verified_bundle = p1 ∙ ap (λ x. ok x) e;
        extracted = (negated_iff task.has_extracted_root).0 p3;
        archive =
            subst (λ x. x.archive_sha256 ≡ task.preview.bundle_sha256) e
              ((same_text_iff found.archive_sha256 task.preview.bundle_sha256).0 c);
        delivery =
            subst (λ x. x.manifest.delivery_id ≡ task.preview.source_delivery_id) e
              ((same_text_iff found.manifest.delivery_id task.preview.source_delivery_id).0 d);
        unchanged_archive = (same_text_iff task.observed_sha256 task.preview.bundle_sha256).0 b;
        profile = q;
        same_profile = of_profile;
        imported =
            import_artifacts-IsRun registry task.policy cancels 0 s bundle.manifest.artifacts u
              (no_failures run.outcomes (sym f ∙ n));
        receipt = w;
      }

  -- A completed import dealt with the bundle of the preview, from an archive that had not changed and
  -- with the profile of the operation: every artifact of its manifest, one after the other, was found
  -- at its reference with its digest, or was pushed there where nothing was, or was pushed there or
  -- passed over where another one was, as the caller chose; and the receipt was written.
  pub import_worker-IsImported :
      (import_worker registry task cancels s).ending ≡ ok tt
      → IsImported registry task s (import_worker registry task cancels s)
  unfolding import_worker
  import_worker-IsImported h = started-completed (checked_bundle task) refl h

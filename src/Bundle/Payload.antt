-- ===== src/Bundle/Payload.antt =====
-- What the checks of the payload leave known.
use harbor_transfer_portal.Base.{
  ==_iff, All, Bool, Bool-cases, List, Option-cases, [], all, and_true_iff, any, bind-ok, inl, inr,
  both_hold, not, negated_iff, ok, or_left, or_right, refl, refuse_if-ok, refuse_if_passed, then-ok,
  true, ◌++◌, ◌==◌, ◌||◌, ◌∙◌, ◌∷◌, ◌≡◌,
}
use harbor_transfer_portal.Bundle.Authentic.{IsDeclared, IsExact, contents}
use harbor_transfer_portal.Bundle.Checksums.{Checksums, paths}
use harbor_transfer_portal.Bundle.Inspection.{
  ArchiveInspection, PayloadFile, belongs_to, find_member, payload_stats,
}
use harbor_transfer_portal.Bundle.Layout.{
  check_root, combine, cover, matches, paths_overlap, payload_names, same_set,
  validate_payload_layout, verify_descriptor_metadata, verify_descriptors, verify_payload_checksums,
}
use harbor_transfer_portal.Bundle.Manifest.{ArtifactDescriptor, BundleManifest, Libraries}
use harbor_transfer_portal.Bundle.Text.{
  PurePosixPath, Text, among, as_posix, is_empty, posix_path, same_text, same_text_iff,
}
use mathlib.Core.Path.{subst, ap₂}

among-All : (P : Text → Type 0) (t : Text) (ts : List Text) → All P ts → among t ts ≡ true → P t
among-All P t [] h m = cc
among-All P t (s ∷ ts) h m = elim (Bool-cases (same_text s t)) [
  | inl same ↦ subst P ((same_text_iff s t).0 same) h.0
  | inr other ↦ among-All P t ts h.1 (rw other at m)
]

All-covered :
    (P : Text → Type 0) (covered ts : List Text)
    → All P covered
    → all (λ t. among t covered) ts ≡ true
    → All P ts
All-covered P covered [] h m = tt
All-covered P covered (t ∷ ts) h m =
    let (first, rest) = (and_true_iff (among t covered) (all (λ s. among s covered) ts)).0 m in
    (among-All P t covered h first, All-covered P covered ts h rest)

All-append : (P : Text → Type 0) (ss ts : List Text) → All P ss → All P ts → All P (ss ++ ts)
All-append P [] ts h k = k
All-append P (s ∷ ss) ts h k = (h.0, All-append P ss ts h.1 k)

matches-All :
    (P : Text → Type 0) (root : Text) (ts : List Text)
    → ((t : Text) → belongs_to root t ≡ true → P t)
    → All P (matches root ts)
matches-All P root [] h = tt
matches-All P root (t ∷ ts) h = elim (Bool-cases (belongs_to root t)) [
  | inl mine ↦ rw mine (h t mine, matches-All P root ts h)
  | inr other ↦ rw other (matches-All P root ts h)
]

abbrev declares : ArtifactDescriptor → Text → Bool
declares a path = belongs_to (as_posix (posix_path a.payload_path)) path

cover-All :
    (P : Text → Type 0) (found : ArchiveInspection) (listed : List Text)
    (artifacts : List ArtifactDescriptor) (roots : List PurePosixPath)
    (covered covered' : List Text)
    → ((t : Text) → any (λ a. declares a t) artifacts ≡ true → P t)
    → cover found listed artifacts roots covered ≡ ok covered'
    → All P covered
    → All P covered'
unfolding cover
cover-All P found listed [] roots covered covered' h e k =
    let same : covered ≡ covered' = cc e in subst (λ c. All P c) same k
cover-All P found listed (a ∷ rest) roots covered covered' h e k =
    let root = posix_path a.payload_path in
    let (apart, e1) = refuse_if-ok (any (λ r. paths_overlap root r) roots) _ _ e in
    let (present, e2) = refuse_if-ok (is_empty (matches (as_posix root) listed)) _ _ e1 in
    let (fits, e3) = then-ok (check_root a root found) _ e2 in
    cover-All P found listed rest (root ∷ roots) (covered ++ matches (as_posix root) listed)
      covered' (λ t m. h t (or_right (declares a t) m)) e3
      (All-append P covered (matches (as_posix root) listed) k (
        matches-All P (as_posix root) listed
          (λ t m. h t (or_left (any (λ b. declares b t) rest) m))))

pub validate_payload_layout-known :
    (manifest : BundleManifest) (found : ArchiveInspection) (checksums : Checksums)
    → validate_payload_layout manifest found checksums ≡ ok tt
    → (same_set (payload_names found.file_members) (paths checksums) ≡ true)
      × All (IsDeclared manifest.artifacts) (paths checksums)
unfolding validate_payload_layout
validate_payload_layout-known manifest found checksums e =
    let (same, e1) =
      refuse_if-ok (not (same_set (payload_names found.file_members) (paths checksums))) _ _ e in
    let (covered, walked, e2) =
      bind-ok (cover found (paths checksums) manifest.artifacts [] []) _ e1 in
    let full = refuse_if_passed (not (same_set covered (paths checksums))) _ e2 in
    let both =
      (and_true_iff (all (λ s. among s (paths checksums)) covered)
          (all (λ t. among t covered) (paths checksums))).0
        ((negated_iff (same_set covered (paths checksums))).0 full) in
    (
      (negated_iff (same_set (payload_names found.file_members) (paths checksums))).0 same,
      All-covered (IsDeclared manifest.artifacts) covered (paths checksums)
          (cover-All (IsDeclared manifest.artifacts) found (paths checksums) manifest.artifacts []
            [] covered (λ t m. m) walked tt)
          both.1,
    )

-- The checksums, once they have been compared with the files, are the hashes of the files.
combine-contents :
    (lib : Libraries) (found : ArchiveInspection) (checksums : Checksums) (files : List PayloadFile)
    → verify_payload_checksums lib found checksums ≡ ok tt
    → combine found checksums ≡ ok files
    → files ≡ contents lib found.file_members (paths checksums)
unfolding verify_payload_checksums combine
combine-contents lib found [] files v e = cc e
combine-contents lib found ((path, expected) ∷ rest) files v e =
    elim (Option-cases (find_member path found.file_members)) [
      | inl missing ↦ absurd (let x = rw missing at e in cc)
      | inr (m, there_) ↦
          let v1 = rw there_ at v in
          let e1 = rw there_ at e in
          let (equal, v2) = refuse_if-ok (not (same_text (lib.sha256 m.content) expected)) _ _ v1 in
          let (others, e2, e3) = bind-ok (combine found rest) _ e1 in
          let hash =
            (same_text_iff (lib.sha256 m.content) expected).0
              ((negated_iff (same_text (lib.sha256 m.content) expected)).0 equal) in
          let these : record { path = path; digest = expected; size = m.size } ∷ others ≡ files =
            cc e3 in
          let ih = combine-contents lib found rest others v2 e2 in
          rw (there_, ← these, hash, ih) refl
    ]

verify_descriptors-IsExact :
    (lib : Libraries) (files : List PayloadFile) (artifacts : List ArtifactDescriptor)
    → verify_descriptors lib files artifacts ≡ ok tt
    → All (IsExact lib files) artifacts
unfolding verify_descriptors
verify_descriptors-IsExact lib files [] e = tt
verify_descriptors-IsExact lib files (a ∷ rest) e =
    let (stats, counted_, e1) = bind-ok (payload_stats lib a.payload_path files) _ e in
    let (equal, e2) =
      refuse_if-ok
        (not (same_text stats.sha256 a.payload_sha256) || not (stats.size == a.payload_size)) _ _
        e1 in
    let (same_hash, same_size) =
      both_hold (same_text stats.sha256 a.payload_sha256) (stats.size == a.payload_size) equal in
    let hash = (same_text_iff stats.sha256 a.payload_sha256).0 same_hash in
    let size = (==_iff stats.size a.payload_size).0 same_size in
    (
      counted_ ∙ ap₂ (λ h s. ok (record { sha256 = h; size = s })) hash size,
      verify_descriptors-IsExact lib files rest e2,
    )

pub payload-IsExact :
    (lib : Libraries) (manifest : BundleManifest) (checksums : Checksums)
    (found : ArchiveInspection)
    → verify_payload_checksums lib found checksums ≡ ok tt
    → verify_descriptor_metadata lib manifest checksums found ≡ ok tt
    → All (IsExact lib (contents lib found.file_members (paths checksums))) manifest.artifacts
unfolding verify_descriptor_metadata
payload-IsExact lib manifest checksums found v e =
    let (files, combined, e1) = bind-ok (combine found checksums) _ e in
    subst (λ fs. All (IsExact lib fs) manifest.artifacts)
      (combine-contents lib found checksums files v combined)
      (verify_descriptors-IsExact lib files manifest.artifacts e1)

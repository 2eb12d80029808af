-- ===== src/Bundle/Layout.antt =====
-- _validate_payload_layout, _verify_payload_checksums and _verify_descriptor_metadata.
use harbor_transfer_portal.Base.{
  Bool, List, [], all, any, err, false, if◌then◌else◌, is_some, none, not, ok, refuse_if, some,
  true, ◌&&◌, ◌++◌, ◌==◌, ◌>>=◌, ◌>>◌, ◌||◌, ◌∷◌, Option,
}
use harbor_transfer_portal.Bundle.Checksums.{Checksums, paths}
use harbor_transfer_portal.Bundle.Inspection.{
  ArchiveInspection, PayloadFile, belongs_to, find_member, payload_stats,
}
use harbor_transfer_portal.Bundle.Limits.{BundleResult}
use harbor_transfer_portal.Bundle.Manifest.{
  ArtifactDescriptor, BundleManifest, Libraries, container_image, helm_chart,
}
use harbor_transfer_portal.Bundle.Members.{TarInfo, is_critical}
use harbor_transfer_portal.Bundle.Text.{
  PurePosixPath, Text, among, as_posix, codes, ends_with, first_part, is_empty, posix_path,
  same_text,
}

-- Whether the components of one path begin the other's.
abbrev pub begins : List Text → List Text → Bool
begins [] ts = true
begins (s ∷ ss) [] = false
begins (s ∷ ss) (t ∷ ts) = same_text s t && begins ss ts

-- _paths_overlap: the paths are equal, or one is a parent of the other
unfoldable pub paths_overlap : PurePosixPath → PurePosixPath → Bool
paths_overlap left right =
    same_text left.root right.root
    && (begins left.components right.components || begins right.components left.components)

abbrev pub same_set : List Text → List Text → Bool
same_set ss ts = all (λ s. among s ts) ss && all (λ t. among t ss) ts

abbrev pub payload_names : List (Text × TarInfo) → List Text
payload_names [] = []
payload_names ((name, m) ∷ rest) =
    let others = payload_names rest in if is_critical name then others else name ∷ others

-- {path for path in checksums if ...}
abbrev pub matches : Text → List Text → List Text
matches root_name [] = []
matches root_name (path ∷ rest) =
    let others = matches root_name rest in
    if belongs_to root_name path then path ∷ others else others

abbrev is_member : Text → ArchiveInspection → Bool
is_member name inspection = is_some (find_member name inspection.file_members)

-- The checks of one artifact by its type.
abbrev pub check_root :
    ArtifactDescriptor → PurePosixPath → ArchiveInspection → BundleResult (Unit {0})
check_root a root inspection = elim a.kind [
  | container_image reference ↦
      refuse_if
        (not (same_text (first_part root) (codes "images")) || is_member (as_posix root) inspection)
        "bundle_image_payload_invalid"
  | helm_chart name version ↦ (do
    refuse_if
        (not (same_text (first_part root) (codes "charts"))
          || not (ends_with (as_posix root) (codes ".tgz")))
        "bundle_chart_payload_invalid"
    refuse_if (not (is_member (as_posix root) inspection)) "bundle_chart_payload_invalid")
]

-- The loop over the artifacts: the paths that they cover, given the roots so far.
unfoldable pub cover :
    ArchiveInspection
    → List Text
    → List ArtifactDescriptor
    → List PurePosixPath
    → List Text
    → BundleResult (List Text)
cover inspection listed [] roots covered = ok covered
cover inspection listed (a ∷ rest) roots covered = do
  refuse_if (any (λ r. paths_overlap (posix_path a.payload_path) r) roots) "bundle_payload_overlap"
  refuse_if (is_empty (matches (as_posix (posix_path a.payload_path)) listed))
      "bundle_payload_missing"
  check_root a (posix_path a.payload_path) inspection
  cover inspection listed rest (posix_path a.payload_path ∷ roots)
      (covered ++ matches (as_posix (posix_path a.payload_path)) listed)

-- _validate_payload_layout
unfoldable pub validate_payload_layout :
    BundleManifest → ArchiveInspection → Checksums → BundleResult (Unit {0})
validate_payload_layout manifest inspection checksums = do
  refuse_if (not (same_set (payload_names inspection.file_members) (paths checksums)))
      "bundle_payload_layout_mismatch"
  covered ← cover inspection (paths checksums) manifest.artifacts [] []
  refuse_if (not (same_set covered (paths checksums))) "bundle_payload_undeclared"

abbrev pub present : Option TarInfo → BundleResult TarInfo
present none = err "KeyError"
present (some m) = ok m

-- inspection.file_members[path], which raises for a path that is not there
abbrev pub member_at : Text → ArchiveInspection → BundleResult TarInfo
member_at path inspection = present (find_member path inspection.file_members)

-- _verify_payload_checksums
unfoldable pub verify_payload_checksums :
    Libraries → ArchiveInspection → Checksums → BundleResult (Unit {0})
verify_payload_checksums lib inspection [] = ok tt
verify_payload_checksums lib inspection ((path, expected) ∷ rest) = do
  m ← member_at path inspection
  refuse_if (not (same_text (lib.sha256 m.content) expected)) "bundle_payload_checksum_mismatch"
  verify_payload_checksums lib inspection rest

-- The checksums with the sizes of the archive's headers.
unfoldable pub combine : ArchiveInspection → Checksums → BundleResult (List PayloadFile)
combine inspection [] = ok []
combine inspection ((path, digest) ∷ rest) = do
  m ← member_at path inspection
  files ← combine inspection rest
  ok (record { path = path; digest = digest; size = m.size } ∷ files)

unfoldable pub verify_descriptors :
    Libraries → List PayloadFile → List ArtifactDescriptor → BundleResult (Unit {0})
verify_descriptors lib combined [] = ok tt
verify_descriptors lib combined (a ∷ rest) = do
  stats ← payload_stats lib a.payload_path combined
  refuse_if (not (same_text stats.sha256 a.payload_sha256) || not (stats.size == a.payload_size))
      "bundle_payload_metadata_mismatch"
  verify_descriptors lib combined rest

-- _verify_descriptor_metadata
unfoldable pub verify_descriptor_metadata :
    Libraries → BundleManifest → Checksums → ArchiveInspection → BundleResult (Unit {0})
verify_descriptor_metadata lib manifest checksums inspection = do
  combined ← combine inspection checksums
  verify_descriptors lib combined manifest.artifacts

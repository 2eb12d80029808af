-- ===== src/Bundle/Inspection.antt =====
-- _inspect_archive, _read_small_member and the statistics of payloads.
use harbor_transfer_portal.Base.{
  Bool, List, Option, Result, String, [], err, false, if◌then◌else◌, length, ltb, map, none, ok,
  refuse_if, some, true, ℕ, ◌&&◌, ◌++◌, ◌+◌, ◌==◌, ◌>>=◌, ◌>>◌, ◌||◌, ◌∷◌,
}
use harbor_transfer_portal.Bundle.Checksums.{Checksums, serialize_checksums}
use harbor_transfer_portal.Bundle.Limits.{
  BundleLimits, BundleResult, validate_member_name, validate_top_level,
}
use harbor_transfer_portal.Bundle.Manifest.{Libraries}
use harbor_transfer_portal.Bundle.Members.{
  Bytes, TarInfo, is_file, member_name, validate_archive_members,
}
use harbor_transfer_portal.Bundle.Text.{Text, codes, is_empty, same_text, starts_with}

pub record ArchiveInspection : Type 0 where
  pub members : List TarInfo
  pub file_members : List (Text × TarInfo)

-- The loop over the members: the files by their names, and the total of their sizes so far.
unfoldable pub inspect_members :
    BundleLimits
    → List TarInfo
    → ℕ
    → List (Text × TarInfo)
    → BundleResult (List (Text × TarInfo) × ℕ)
inspect_members l [] total files = ok (files, total)
inspect_members l (m ∷ ms) total files = do
  validate_member_name l (member_name m)
  validate_top_level (member_name m)
  refuse_if (is_file m && ltb l.bundle_max_extracted_bytes (total + m.size))
      "bundle_extracted_size_exceeded"
  inspect_members l ms (if is_file m then total + m.size else total)
      (if is_file m then files ++ (member_name m, m) ∷ [] else files)

abbrev check_ratio : Libraries → ℕ → ℕ → BundleResult (Unit {0})
check_ratio lib archive_size total =
    refuse_if (ltb 0 archive_size && lib.ratio_exceeds total archive_size)
      "bundle_compression_ratio_exceeded"

abbrev pub as_unsafe : Result String (Unit {0}) → BundleResult (Unit {0})
as_unsafe (ok u) = ok u
as_unsafe (err e) = err "bundle_archive_unsafe"

abbrev inspected :
    Libraries → List TarInfo → ℕ → List (Text × TarInfo) × ℕ → BundleResult ArchiveInspection
inspected lib members archive_size (files, total) = do
  check_ratio lib archive_size total
  ok (record { members = members; file_members = files })

-- _inspect_archive
unfoldable pub inspect_archive :
    Libraries → BundleLimits → List TarInfo → ℕ → BundleResult ArchiveInspection
inspect_archive lib l members archive_size = do
  refuse_if (ltb l.bundle_max_member_count (length members)) "bundle_member_limit_exceeded"
  as_unsafe (validate_archive_members members)
  found ← inspect_members l members 0 []
  inspected lib members archive_size found

abbrev pub find_member : Text → List (Text × TarInfo) → Option TarInfo
find_member path [] = none
find_member path ((name, m) ∷ rest) = if same_text name path then some m else find_member path rest

abbrev read_member : BundleLimits → Option TarInfo → BundleResult Bytes
read_member l none = err "bundle_required_file_invalid"
read_member l (some m) = do
  refuse_if (ltb l.bundle_max_metadata_bytes m.size) "bundle_metadata_too_large"
  refuse_if (ltb l.bundle_max_metadata_bytes (length m.content)) "bundle_metadata_too_large"
  ok m.content

-- _read_small_member
unfoldable pub read_small_member : BundleLimits → Text → ArchiveInspection → BundleResult Bytes
read_small_member l path inspection = read_member l (find_member path inspection.file_members)

-- A row of the checksums with sizes: path, digest, size.
pub record PayloadFile : Type 0 where
  pub path : Text
  pub digest : Text
  pub size : ℕ

pub record PayloadStats : Type 0 where
  pub sha256 : Text
  pub size : ℕ

-- path == payload_path or path.startswith(payload_path + "/")
unfoldable pub belongs_to : Text → Text → Bool
belongs_to payload_path path =
    same_text path payload_path || starts_with path (payload_path ++ codes "/")

abbrev pub files_of : Text → List PayloadFile → List PayloadFile
files_of payload_path [] = []
files_of payload_path (f ∷ fs) =
    let rest = files_of payload_path fs in if belongs_to payload_path f.path then f ∷ rest else rest

-- left <= right, by code points
abbrev pub text_le : Text → Text → Bool
text_le [] t = true
text_le (c ∷ s) [] = false
text_le (c ∷ s) (d ∷ t) = ltb c d || (c == d && text_le s t)

abbrev insert_file : PayloadFile → List PayloadFile → List PayloadFile
insert_file f [] = f ∷ []
insert_file f (g ∷ gs) =
    let rest = insert_file f gs in if text_le f.path g.path then f ∷ (g ∷ gs) else g ∷ rest

abbrev sort_files : List PayloadFile → List PayloadFile
sort_files [] = []
sort_files (f ∷ fs) = insert_file f (sort_files fs)

abbrev pub total_size : List PayloadFile → ℕ
total_size [] = 0
total_size (f ∷ fs) = f.size + total_size fs

abbrev listing_of : List PayloadFile → Checksums
listing_of fs = map (λ f. (f.path, f.digest)) fs

abbrev listed_stats : Libraries → Text → List PayloadFile → BundleResult PayloadStats
listed_stats lib payload_path [] = err "bundle_payload_missing"
listed_stats lib payload_path (f ∷ fs) =
    if is_empty fs && same_text f.path payload_path
    then ok (record { sha256 = f.digest; size = total_size (f ∷ fs) })
    else ok (record {
      sha256 = lib.sha256 (lib.encode (serialize_checksums (listing_of (f ∷ fs))));
      size = total_size (f ∷ fs);
    })

-- _payload_stats
unfoldable pub payload_stats : Libraries → Text → List PayloadFile → BundleResult PayloadStats
payload_stats lib payload_path files =
    listed_stats lib payload_path (sort_files (files_of payload_path files))

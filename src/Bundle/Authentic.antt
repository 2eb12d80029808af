-- ===== src/Bundle/Authentic.antt =====
-- What an accepted bundle is known to be: signed by a trusted key, and in content what the signed
-- manifest declares.
use harbor_transfer_portal.Bundle.Checksums.{parse_checksums, paths}
use harbor_transfer_portal.Bundle.Layout.{payload_names}
use harbor_transfer_portal.Bundle.Limits.{BundleLimits, BundleResult}
use harbor_transfer_portal.Base.{
  All, List, Option, [], any, false, if◌then◌else◌, none, ok, some, true, ◌++◌, ◌>>=◌, ◌∷◌, ◌≡◌,
}
use harbor_transfer_portal.Bundle.Inspection.{PayloadFile, belongs_to, find_member, payload_stats}
use harbor_transfer_portal.Bundle.Layout.{same_set}
use harbor_transfer_portal.Bundle.Manifest.{
  ArtifactDescriptor, BundleManifest, JsonFields, Libraries, drop_nulls, object,
}
use harbor_transfer_portal.Bundle.Members.{Bytes, TarInfo, is_file, member_name}
use harbor_transfer_portal.Bundle.Text.{Text, among, as_posix, codes, posix_path}

-- The files of an archive, by their names.
abbrev pub named_files : List TarInfo → List (Text × TarInfo)
named_files [] = []
named_files (m ∷ ms) =
    let rest = named_files ms in if is_file m then (member_name m, m) ∷ rest else rest

abbrev actual_file : Libraries → Text → Option TarInfo → List PayloadFile
actual_file lib path none = []
actual_file lib path (some m) =
    record { path = path; digest = lib.sha256 m.content; size = m.size } ∷ []

-- The files of the archive at these paths, with the hashes of what they hold.
abbrev pub contents : Libraries → List (Text × TarInfo) → List Text → List PayloadFile
contents lib files [] = []
contents lib files (path ∷ rest) =
    actual_file lib path (find_member path files) ++ contents lib files rest

abbrev pub IsDeclared : List ArtifactDescriptor → Text → Type 0
IsDeclared artifacts path =
    any (λ (a : ArtifactDescriptor). belongs_to (as_posix (posix_path a.payload_path)) path)
      artifacts
    ≡ true

abbrev pub IsExact : Libraries → List PayloadFile → ArtifactDescriptor → Type 0
IsExact lib files a =
    payload_stats lib a.payload_path files
    ≡ ok (record { sha256 = a.payload_sha256; size = a.payload_size })

-- The paths that a file checksums.sha256 lists.
abbrev pub listed_of : Libraries → BundleLimits → TarInfo → BundleResult (List Text)
listed_of lib limits file =
    parse_checksums limits (lib.decode file.content) >>= (λ cs. ok (paths cs))

-- No path stands twice in the list.
abbrev pub AreDistinct : List Text → Type 0
AreDistinct [] = Unit
AreDistinct (t ∷ ts) = (among t ts ≡ false) × AreDistinct ts

pub record IsAuthentic (lib : Libraries) (limits : BundleLimits) (trusted_keys : List Bytes)
    (members : List TarInfo) (manifest : BundleManifest) (fingerprint : Text) : Type 0 where
  pub manifest_file : TarInfo
  pub has_manifest : find_member (codes "manifest.json") (named_files members) ≡ some manifest_file
  pub signature_file : TarInfo
  pub has_signature : find_member (codes "manifest.sig") (named_files members) ≡ some signature_file
  pub key : Bytes
  pub trusted : among key trusted_keys ≡ true
  pub signed : lib.verifies key signature_file.content manifest_file.content ≡ true
  pub signer : lib.fingerprint key ≡ fingerprint
  pub fields : JsonFields
  pub parsed : lib.loads manifest_file.content ≡ some (object fields)
  pub canonical : lib.dumps (drop_nulls (object fields)) ≡ manifest_file.content
  pub coerced : lib.coerce_manifest (object fields) ≡ some manifest
  pub checksums_file : TarInfo
  pub has_checksums :
      find_member (codes "checksums.sha256") (named_files members) ≡ some checksums_file
  pub listed : List Text
  pub listed_in : listed_of lib limits checksums_file ≡ ok listed
  pub distinct : AreDistinct listed
  pub complete : same_set (payload_names (named_files members)) listed ≡ true
  pub declared : All (IsDeclared manifest.artifacts) listed
  pub exact : All (IsExact lib (contents lib (named_files members) listed)) manifest.artifacts

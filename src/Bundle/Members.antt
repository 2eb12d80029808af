-- ===== src/Bundle/Members.antt =====
-- validate_archive_members of backend/app/domain/protocol.py.
use harbor_transfer_portal.Base.{
  Bool, List, Result, String, [], all, any, false, if◌then◌else◌, not, ok, refuse_if, true, ℕ, ◌&&◌,
  ◌++◌, ◌>>=◌, ◌>>◌, ◌||◌, ◌∷◌,
}
use harbor_transfer_portal.Bundle.Text.{
  Text, among, as_posix, codes, first_part, has, is_absolute, is_empty, parts, posix_path, rstrip,
  same_text, starts_with,
}

abbrev pub Bytes : Type 0
Bytes = List ℕ

pub data MemberKind : Type 0 where
  regular directory symlink hardlink special : MemberKind

-- A member of a tar archive, with what it extracts to.
pub record TarInfo : Type 0 where
  pub name : Text
  pub kind : MemberKind
  pub size : ℕ
  pub content : Bytes

abbrev pub is_file : TarInfo → Bool
is_file m = elim m.kind [ regular ↦ true | _ ↦ false ]

abbrev pub is_dir : TarInfo → Bool
is_dir m = elim m.kind [ directory ↦ true | _ ↦ false ]

abbrev pub is_link : TarInfo → Bool
is_link m = elim m.kind [ symlink ↦ true | hardlink ↦ true | _ ↦ false ]

-- SECURITY_CRITICAL_PATHS
abbrev pub security_critical_paths : List Text
security_critical_paths =
    codes "manifest.json" ∷ codes "manifest.sig" ∷ codes "checksums.sha256" ∷ []

-- PAYLOAD_TOP_LEVEL_PATHS
abbrev pub payload_top_level_paths : List Text
payload_top_level_paths = codes "images" ∷ codes "charts" ∷ []

abbrev pub member_name : TarInfo → Text
member_name m = if is_dir m then rstrip 47 m.name else m.name

-- A name with a backslash, a NUL, a line feed or a carriage return.
abbrev pub has_forbidden : Text → Bool
has_forbidden s = has 92 s || has 0 s || has 10 s || has 13 s

-- The guards of _canonical_member_name, on the name of the header and on the name without the slash
-- that ends a directory.
unfoldable pub is_unsafe : Text → Text → Bool
is_unsafe raw name =
    is_empty name
    || is_absolute (posix_path name)
    || among (codes "..") (parts (posix_path name))
    || has_forbidden raw

unfoldable pub is_canonical : Text → Bool
is_canonical name = same_text (as_posix (posix_path name)) name

-- _canonical_member_name
unfoldable pub canonical_member_name : TarInfo → Result String Text
canonical_member_name m = do
  refuse_if (is_unsafe m.name (member_name m)) "unsafe archive path"
  refuse_if (not (is_canonical (member_name m))) "archive path is not canonical"
  ok (as_posix (posix_path (member_name m)))

pub record Seen : Type 0 where
  pub seen : List Text
  pub payload_files : List Text
  pub payload_directories : List Text

abbrev pub is_critical : Text → Bool
is_critical name = among name security_critical_paths

abbrev pub in_payload : Text → Bool
in_payload name = among (first_part (posix_path name)) payload_top_level_paths

abbrev pub noted : TarInfo → Text → Seen → Seen
noted m name s =
    if is_critical name
    then record s { seen = name ∷ s.seen }
    else if is_file m
    then record s { seen = name ∷ s.seen; payload_files = name ∷ s.payload_files }
    else record s { seen = name ∷ s.seen; payload_directories = name ∷ s.payload_directories }

-- The body of the loop, once the name is known.
abbrev pub admit : TarInfo → Text → Seen → Result String Seen
admit m name s = do
  refuse_if (among name s.seen) "duplicate archive member"
  refuse_if (is_link m) "archive links are not allowed"
  refuse_if (not (is_file m || is_dir m)) "unsupported archive member type"
  refuse_if (is_critical name && not (is_file m)) "security-critical member must be a file"
  refuse_if (not (is_critical name) && not (in_payload name))
      "archive member is outside payload layout"
  ok (noted m name s)

unfoldable pub admit_all : List TarInfo → Seen → Result String Seen
admit_all [] s = ok s
admit_all (m ∷ ms) s = do name ← canonical_member_name m; s' ← admit m name s; admit_all ms s'

abbrev pub nothing_seen : Seen
nothing_seen = record { seen = []; payload_files = []; payload_directories = [] }

-- The directory has a payload file below it.
abbrev pub is_inhabited : List Text → Text → Bool
is_inhabited files dir = any (λ path. starts_with path (dir ++ codes "/")) files

-- validate_archive_members
unfoldable pub validate_archive_members : List TarInfo → Result String (Unit {0})
validate_archive_members members = do
  s ← admit_all members nothing_seen
  refuse_if (not (all (λ path. among path s.seen) security_critical_paths))
      "bundle is missing required members"
  refuse_if (not (all (is_inhabited s.payload_files) s.payload_directories))
      "empty or undeclared archive directory"

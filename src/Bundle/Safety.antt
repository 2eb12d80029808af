-- ===== src/Bundle/Safety.antt =====
-- What it means for the members of an archive to be safe, without the order of the checks.
use harbor_transfer_portal.Base.{imply_iff, unless_iff, or_known}
use harbor_transfer_portal.Base.{Bool, refl, ◌||◌, ◌↔◌}
use harbor_transfer_portal.Bundle.Members.{is_canonical, is_link, is_unsafe}
use harbor_transfer_portal.Base.{
  All, List, [], all, arith, false, if◌then◌else◌, map, not, ok, refuse_if-ok, sym, true, ◌&&◌, ◌∙◌,
  ◌∷◌, ◌≡◌, ◌⊎◌,
}
use harbor_transfer_portal.Bundle.Members.{
  Seen, TarInfo, admit, canonical_member_name, has_forbidden, in_payload, is_critical, is_dir,
  is_file, is_inhabited, member_name, noted, security_critical_paths,
}
use harbor_transfer_portal.Bundle.Text.{
  Text, among, as_posix, codes, is_absolute, is_empty, parts, posix_path, same_text_iff,
}

-- A relative canonical path that stays below its root.
pub record IsSafeName (raw name : Text) : Type 0 where
  pub not_empty : is_empty name ≡ false
  pub relative : is_absolute (posix_path name) ≡ false
  pub below : among (codes "..") (parts (posix_path name)) ≡ false
  pub plain : has_forbidden raw ≡ false
  pub canonical : as_posix (posix_path name) ≡ name

pub record IsAdmissible (m : TarInfo) : Type 0 where
  pub safe_name : IsSafeName m.name (member_name m)
  pub kind : (is_file m ≡ true) ⊎ (is_dir m ≡ true)
  pub critical_file : is_critical (member_name m) ≡ true → is_file m ≡ true
  pub place : is_critical (member_name m) ≡ false → in_payload (member_name m) ≡ true

abbrev pub IsDistinct : List Text → List Text → Type 0
IsDistinct seen [] = Unit {0}
IsDistinct seen (n ∷ ns) = (among n seen ≡ false) × IsDistinct (n ∷ seen) ns

abbrev pub names : List TarInfo → List Text
names ms = map member_name ms

-- The names of the files, and of the directories, that are not security critical.
abbrev pub payload_files : List TarInfo → List Text
payload_files [] = []
payload_files (m ∷ ms) =
    let rest = payload_files ms in
    if not (is_critical (member_name m)) && is_file m then member_name m ∷ rest else rest

abbrev pub payload_directories : List TarInfo → List Text
payload_directories [] = []
payload_directories (m ∷ ms) =
    let rest = payload_directories ms in
    if not (is_critical (member_name m)) && not (is_file m) then member_name m ∷ rest else rest

pub record IsSafeArchive (members : List TarInfo) : Type 0 where
  pub admissible : All IsAdmissible members
  pub distinct : IsDistinct [] (names members)
  pub complete : all (λ path. among path (names members)) security_critical_paths ≡ true
  pub inhabited : all (is_inhabited (payload_files members)) (payload_directories members) ≡ true

pub is_unsafe-not :
    (raw name : Text)
    → is_unsafe raw name ≡ false
    → (is_empty name ≡ false)
      × (is_absolute (posix_path name) ≡ false)
      × (among (codes "..") (parts (posix_path name)) ≡ false)
      × (has_forbidden raw ≡ false)
unfolding is_unsafe
is_unsafe-not raw name h =
    none_of_four (is_empty name) (is_absolute (posix_path name))
      (among (codes "..") (parts (posix_path name))) (has_forbidden raw) h
  where
    none_of_four :
        (a b c d : Bool)
        → (a || b || c || d) ≡ false
        → (a ≡ false) × (b ≡ false) × (c ≡ false) × (d ≡ false)
    none_of_four a b c d h = ground arith

pub IsSafeName-not_unsafe : (raw name : Text) → IsSafeName raw name → is_unsafe raw name ≡ false
unfolding is_unsafe
IsSafeName-not_unsafe raw name h =
    four (is_empty name) (is_absolute (posix_path name))
      (among (codes "..") (parts (posix_path name))) (has_forbidden raw) h.not_empty h.relative
      h.below h.plain
  where
    four :
        (a b c d : Bool)
        → a ≡ false
        → b ≡ false
        → c ≡ false
        → d ≡ false
        → (a || b || c || d) ≡ false
    four a b c d h k l m = ground arith

is_canonical_iff : (name : Text) → (is_canonical name ≡ true) ↔ (as_posix (posix_path name) ≡ name)
unfolding is_canonical
is_canonical_iff name = same_text_iff (as_posix (posix_path name)) name

pub canonical_member_name_sound :
    (m : TarInfo) (n : Text)
    → canonical_member_name m ≡ ok n
    → (member_name m ≡ n) × IsSafeName m.name (member_name m)
unfolding canonical_member_name
canonical_member_name_sound m n e =
    let (safe, e1) = refuse_if-ok (is_unsafe m.name (member_name m)) _ _ e in
    let (same, e2) = refuse_if-ok (not (is_canonical (member_name m))) _ _ e1 in
    let (not_empty, relative, below, plain) = is_unsafe-not m.name (member_name m) safe in
    let normal = (is_canonical_iff (member_name m)).0 (ground (arith, same)) in
    let name : as_posix (posix_path (member_name m)) ≡ n = cc e2 in
    (
      sym normal ∙ name,
      record {
        not_empty = not_empty;
        relative = relative;
        below = below;
        plain = plain;
        canonical = normal;
      },
    )

pub canonical_member_name_complete :
    (m : TarInfo) → IsSafeName m.name (member_name m) → canonical_member_name m ≡ ok (member_name m)
unfolding canonical_member_name
canonical_member_name_complete m h =
    rw
      (
        IsSafeName-not_unsafe m.name (member_name m) h,
        (is_canonical_iff (member_name m)).1 h.canonical,
        h.canonical,
      )
      refl

pub admit_sound :
    (m : TarInfo) (name : Text) (s s' : Seen)
    → admit m name s ≡ ok s'
    → (among name s.seen ≡ false)
      × ((is_file m ≡ true) ⊎ (is_dir m ≡ true))
      × (is_critical name ≡ true → is_file m ≡ true)
      × (is_critical name ≡ false → in_payload name ≡ true)
      × (noted m name s ≡ s')
admit_sound m name s s' e =
    let (new, e1) = refuse_if-ok (among name s.seen) _ _ e in
    let (plain, e2) = refuse_if-ok (is_link m) _ _ e1 in
    let (known, e3) = refuse_if-ok (not (is_file m || is_dir m)) _ _ e2 in
    let (critical, e4) = refuse_if-ok (is_critical name && not (is_file m)) _ _ e3 in
    let (place, e5) = refuse_if-ok (not (is_critical name) && not (in_payload name)) _ _ e4 in
    (
      new,
      or_known (is_file m) (is_dir m) known,
      (imply_iff (is_critical name) (is_file m)).0 critical,
      (unless_iff (is_critical name) (in_payload name)).0 place,
      cc e5,
    )

pub admit_complete :
    (m : TarInfo) (name : Text) (s : Seen)
    → among name s.seen ≡ false
    → (is_file m ≡ true) ⊎ (is_dir m ≡ true)
    → (is_critical name ≡ true → is_file m ≡ true)
    → (is_critical name ≡ false → in_payload name ≡ true)
    → admit m name s ≡ ok (noted m name s)
admit_complete m name s new kind critical place =
    rw
      (
        new,
        not_link m kind,
        known m kind,
        (imply_iff (is_critical name) (is_file m)).1 critical,
        (unless_iff (is_critical name) (in_payload name)).1 place,
      )
      refl
  where
    not_link : (m : TarInfo) → (is_file m ≡ true) ⊎ (is_dir m ≡ true) → is_link m ≡ false
    not_link m h = ground arith

    known :
        (m : TarInfo) → (is_file m ≡ true) ⊎ (is_dir m ≡ true) → not (is_file m || is_dir m) ≡ false
    known m h = ground arith

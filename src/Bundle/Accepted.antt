-- ===== src/Bundle/Accepted.antt =====
-- validate_archive_members accepts exactly the safe archives.
use harbor_transfer_portal.Base.{refuse_if_passed}
use harbor_transfer_portal.Base.{
  All, Bool, Bool-cases, List, [], all, and_swap, and_true, ap, arith, bind-ok, inl, inr, not,
  negated_iff, ok, or_false, refl, refuse_if-ok, sym, ◌&&◌, ◌++◌, ◌||◌, ◌↔◌, ◌∙◌, ◌∷◌, ◌≡◌,
}
use harbor_transfer_portal.Bundle.Members.{
  Seen, TarInfo, admit, admit_all, canonical_member_name, is_critical, is_file, is_inhabited,
  member_name, noted, nothing_seen, security_critical_paths, validate_archive_members,
}
use harbor_transfer_portal.Bundle.Safety.{
  IsAdmissible, IsDistinct, IsSafeArchive, admit_complete, admit_sound,
  canonical_member_name_complete, canonical_member_name_sound, payload_directories, payload_files,
  names,
}
use harbor_transfer_portal.Bundle.Text.{Text, among, codes, same_text, starts_with}
use mathlib.Core.Path.{ap₂}

-- What the loop has noted at its end.
abbrev noted_all : List TarInfo → Seen → Seen
noted_all [] s = s
noted_all (m ∷ ms) s = noted_all ms (noted m (member_name m) s)

noted-seen : (m : TarInfo) (n : Text) (s : Seen) → (noted m n s).seen ≡ n ∷ s.seen
noted-seen m n s = elim (Bool-cases (is_critical n)) [
  | inl critical ↦ rw critical refl
  | inr payload ↦
      rw payload (elim (Bool-cases (is_file m)) [ inl a ↦ rw a refl | inr b ↦ rw b refl ])
]

admit_all_sound :
    (ms : List TarInfo) (s s' : Seen)
    → admit_all ms s ≡ ok s'
    → All IsAdmissible ms × IsDistinct s.seen (names ms) × (noted_all ms s ≡ s')
unfolding admit_all
admit_all_sound [] s s' e = (tt, tt, cc e)
admit_all_sound (m ∷ ms) s s' e =
    let (n, named, e1) = bind-ok (canonical_member_name m) _ e in
    let (s1, admitted, e2) = bind-ok (admit m n s) _ e1 in
    let (same, safe) = canonical_member_name_sound m n named in
    let (new, kind, critical, place, added) = admit_sound m n s s1 admitted in
    let (rest, distinct, last) = admit_all_sound ms s1 s' e2 in
    let here_ : noted m (member_name m) s ≡ s1 = rw same added in
    (
      (
        record {
          safe_name = safe;
          kind = kind;
          critical_file = rw same critical;
          place = rw same place;
        },
        rest,
      ),
      (rw same new, rw (← noted-seen m (member_name m) s, here_) distinct),
      rw here_ last,
    )

admit_all_complete :
    (ms : List TarInfo) (s : Seen)
    → All IsAdmissible ms
    → IsDistinct s.seen (names ms)
    → admit_all ms s ≡ ok (noted_all ms s)
unfolding admit_all
admit_all_complete [] s h d = refl
admit_all_complete (m ∷ ms) s h d =
    rw
      (
        canonical_member_name_complete m h.0.safe_name,
        admit_complete m (member_name m) s d.0 h.0.kind h.0.critical_file h.0.place,
      )
      (admit_all_complete ms (noted m (member_name m) s) h.1
        (rw (noted-seen m (member_name m) s) d.1))

or_swap : (a b c : Bool) → ((a || b) || c) ≡ (b || (a || c))
or_swap a b c = ground arith

seen-noted_all :
    (p : Text) (ms : List TarInfo) (s : Seen)
    → among p (noted_all ms s).seen ≡ (among p s.seen || among p (names ms))
seen-noted_all p [] s = sym (or_false (among p s.seen))
seen-noted_all p (m ∷ ms) s =
    seen-noted_all p ms (noted m (member_name m) s)
    ∙ ap (λ l. among p l || among p (names ms)) (noted-seen m (member_name m) s)
    ∙ or_swap (same_text (member_name m) p) (among p s.seen) (among p (names ms))

all-seen :
    (ps : List Text) (ms : List TarInfo)
    → all (λ p. among p (noted_all ms nothing_seen).seen) ps ≡ all (λ p. among p (names ms)) ps
all-seen [] ms = refl
all-seen (p ∷ ps) ms = ap₂ (λ a b. a && b) (seen-noted_all p ms nothing_seen) (all-seen ps ms)

files-noted_all :
    (d : Text) (ms : List TarInfo) (s : Seen)
    → is_inhabited (noted_all ms s).payload_files d
      ≡ (is_inhabited s.payload_files d || is_inhabited (payload_files ms) d)
files-noted_all d [] s = sym (or_false (is_inhabited s.payload_files d))
files-noted_all d (m ∷ ms) s =
    files-noted_all d ms (noted m (member_name m) s)
    ∙ elim (Bool-cases (is_critical (member_name m))) [
      | inl critical ↦ rw critical refl
      | inr payload ↦ rw payload (elim (Bool-cases (is_file m)) [
        | inr other ↦ rw other refl
        | inl file_ ↦ rw file_ (
            or_swap (starts_with (member_name m) (d ++ codes "/")) (is_inhabited s.payload_files d)
              (is_inhabited (payload_files ms) d))
      ])
    ]

directories-noted_all :
    (q : Text → Bool) (ms : List TarInfo) (s : Seen)
    → all q (noted_all ms s).payload_directories
      ≡ (all q s.payload_directories && all q (payload_directories ms))
directories-noted_all q [] s = sym (and_true (all q s.payload_directories))
directories-noted_all q (m ∷ ms) s =
    directories-noted_all q ms (noted m (member_name m) s)
    ∙ elim (Bool-cases (is_critical (member_name m))) [
      | inl critical ↦ rw critical refl
      | inr payload ↦ rw payload (elim (Bool-cases (is_file m)) [
        | inl file_ ↦ rw file_ refl
        | inr other ↦ rw other (
            and_swap (q (member_name m)) (all q s.payload_directories)
              (all q (payload_directories ms)))
      ])
    ]

all-inhabited :
    (ms : List TarInfo) (ds : List Text)
    → all (is_inhabited (noted_all ms nothing_seen).payload_files) ds
      ≡ all (is_inhabited (payload_files ms)) ds
all-inhabited ms [] = refl
all-inhabited ms (d ∷ ds) =
    ap₂ (λ a b. a && b) (files-noted_all d ms nothing_seen) (all-inhabited ms ds)

inhabited-noted_all :
    (ms : List TarInfo)
    → all
        (is_inhabited (noted_all ms nothing_seen).payload_files)
        (noted_all ms nothing_seen).payload_directories
      ≡ all (is_inhabited (payload_files ms)) (payload_directories ms)
inhabited-noted_all ms =
    all-inhabited ms (noted_all ms nothing_seen).payload_directories
    ∙ directories-noted_all (is_inhabited (payload_files ms)) ms nothing_seen

-- The members of an archive are accepted exactly if each has a relative canonical name that stays
-- below the archive's root and is a file or a directory, the security-critical ones files and the
-- others under images or charts; no two have one name; the three security-critical files are there;
-- and every payload directory has a payload file below it.
pub validate_archive_members-iff-IsSafeArchive :
    (ms : List TarInfo) → (validate_archive_members ms ≡ ok tt) ↔ IsSafeArchive ms
unfolding validate_archive_members
validate_archive_members-iff-IsSafeArchive ms = (sound, complete)
  where
    sound : validate_archive_members ms ≡ ok tt → IsSafeArchive ms
    sound e =
        let (s, admitted, e1) = bind-ok (admit_all ms nothing_seen) _ e in
        let (h, d, last) = admit_all_sound ms nothing_seen s admitted in
        let (full, e2) =
          refuse_if-ok (not (all (λ path. among path s.seen) security_critical_paths)) _ _ e1 in
        let below =
          refuse_if_passed (not (all (is_inhabited s.payload_files) s.payload_directories)) _ e2 in
        record {
          admissible = h;
          distinct = d;
          complete =
              sym (all-seen security_critical_paths ms)
              ∙ ap (λ (x : Seen). all (λ p. among p x.seen) security_critical_paths) last
              ∙ (negated_iff (all (λ p. among p s.seen) security_critical_paths)).0 full;
          inhabited =
              sym (inhabited-noted_all ms)
              ∙ ap (λ (x : Seen). all (is_inhabited x.payload_files) x.payload_directories) last
              ∙ (negated_iff (all (is_inhabited s.payload_files) s.payload_directories)).0 below;
        }

    complete : IsSafeArchive ms → validate_archive_members ms ≡ ok tt
    complete h =
        rw
          (
            admit_all_complete ms nothing_seen h.admissible h.distinct,
            all-seen security_critical_paths ms ∙ h.complete,
            inhabited-noted_all ms ∙ h.inhabited,
          )
          refl

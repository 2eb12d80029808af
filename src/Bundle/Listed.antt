-- ===== src/Bundle/Listed.antt =====
-- The file checksums.sha256 lists no path twice.
use harbor_transfer_portal.Base.{
  Bool-cases, List, Option, [], bind-ok, false, inl, inr, length, ltb, none, not, ok, or_neither,
  refl, refuse_if-ok, returned, some, sym, then-ok, ◌++◌, ◌∷◌, ◌≡◌, ◌||◌,
}
use mathlib.Core.Path.{subst}
use harbor_transfer_portal.Bundle.Authentic.{AreDistinct}
use harbor_transfer_portal.Bundle.Checksums.{
  Checksums, drop, is_reserved, is_sha256, not_empty, parse_checksums, parse_line, parse_lines,
  paths, splitlines, take,
}
use harbor_transfer_portal.Bundle.Limits.{BundleLimits, validate_member_name}
use harbor_transfer_portal.Bundle.Members.{is_critical}
use harbor_transfer_portal.Bundle.Text.{Text, among, codes, is_empty, same_text, same_text_iff}

-- The entry that a line adds has a path that no entry has.
abbrev with_entry : Checksums → Text → Text → Checksums
with_entry cs path digest = cs ++ (path, digest) ∷ []

different : (s t : Text) → same_text s t ≡ false → same_text t s ≡ false
different s t h = elim (Bool-cases (same_text t s)) [
  | inl e ↦ let back = (same_text_iff s t).1 (sym ((same_text_iff t s).0 e)) in cc
  | inr e ↦ e
]

among-with_entry :
    (cs : Checksums) (path digest t : Text)
    → among t (paths cs) ≡ false
    → same_text path t ≡ false
    → among t (paths (with_entry cs path digest)) ≡ false
among-with_entry [] path digest t h k = rw k refl
among-with_entry (c ∷ cs) path digest t h k =
    let (a, b) = or_neither (same_text (c.0) t) (among t (paths cs)) h in
    rw a (among-with_entry cs path digest t b k)

with_entry-AreDistinct :
    (cs : Checksums) (path digest : Text)
    → AreDistinct (paths cs)
    → among path (paths cs) ≡ false
    → AreDistinct (paths (with_entry cs path digest))
with_entry-AreDistinct [] path digest h k = (refl, tt)
with_entry-AreDistinct (c ∷ cs) path digest h k =
    let (a, b) = or_neither (same_text (c.0) path) (among path (paths cs)) k in
    (
      among-with_entry cs path digest (c.0) h.0 (different (c.0) path a),
      with_entry-AreDistinct cs path digest h.1 b,
    )

parse_line-AreDistinct :
    (l : BundleLimits) (line : Text) (entries : Checksums) {after : Checksums}
    → AreDistinct (paths entries)
    → parse_line l line entries ≡ ok after
    → AreDistinct (paths after)
unfolding parse_line is_reserved
parse_line-AreDistinct l line entries h e =
    let (p0, e0) = refuse_if-ok (is_empty line) _ _ e in
    let (p1, e1) =
      refuse_if-ok (ltb (length line) 67 || not (same_text (take 2 (drop 64 line)) (codes "  "))) _
        _ e0 in
    let (p2, e2) = refuse_if-ok (not (is_sha256 (take 64 line))) _ _ e1 in
    let (p3, e3) = then-ok (validate_member_name l (drop 66 line)) _ e2 in
    let (p4, e4) =
      refuse_if-ok (is_critical (drop 66 line) || among (drop 66 line) (paths entries)) _ _ e3 in
    let (a, b) =
      or_neither (is_critical (drop 66 line)) (among (drop 66 line) (paths entries)) p4 in
    subst (λ (cs : Checksums). AreDistinct (paths cs)) (returned e4)
      (with_entry-AreDistinct entries (drop 66 line) (take 64 line) h b)

parse_lines-AreDistinct :
    (l : BundleLimits) (lines : List Text) (entries : Checksums) {after : Checksums}
    → AreDistinct (paths entries)
    → parse_lines l lines entries ≡ ok after
    → AreDistinct (paths after)
unfolding parse_lines
parse_lines-AreDistinct l [] entries h e =
    subst (λ (cs : Checksums). AreDistinct (paths cs)) (returned e) h
parse_lines-AreDistinct l (line ∷ rest) entries h e =
    let (entries', p, e0) = bind-ok (parse_line l line entries) _ e in
    parse_lines-AreDistinct l rest entries' (parse_line-AreDistinct l line entries h p) e0

pub parse_checksums-AreDistinct :
    (l : BundleLimits) (text : Option Text) {cs : Checksums}
    → parse_checksums l text ≡ ok cs
    → AreDistinct (paths cs)
unfolding parse_checksums
parse_checksums-AreDistinct l none e = cc
parse_checksums-AreDistinct l (some text) e =
    let (entries, p, e0) = bind-ok (parse_lines l (splitlines text) []) _ e in
    subst (λ (cs : Checksums). AreDistinct (paths cs)) (kept entries e0)
      (parse_lines-AreDistinct l (splitlines text) [] tt p)
  where
    kept : (entries : Checksums) {cs : Checksums} → not_empty entries ≡ ok cs → entries ≡ cs
    kept [] e = cc
    kept (c ∷ cs) e = returned e

-- ===== src/Bundle/RoundTrip.antt =====
-- What is written to checksums.sha256 is what is read from it.
use harbor_transfer_portal.Base.{==_iff, ltb, ok, some, suc, ◌≤◌}
use harbor_transfer_portal.Bundle.Checksums.{
  Checksums, checksum_line, is_reserved, is_sha256, parse_checksums, parse_line, parse_lines,
  serialize_checksums, splitlines,
}
use harbor_transfer_portal.Bundle.Limits.{BundleLimits, is_unsafe_name}
use harbor_transfer_portal.Bundle.Text.{is_empty}
use mathlib.Core.List.{append_assoc, append-nil}
use harbor_transfer_portal.Base.{
  Bool, [], all, and_true_iff, any, ap, arith, false, length, or_assoc, refl, sym, true, ℕ, ◌++◌,
  ◌+◌, ◌==◌, ◌||◌, ◌∙◌, ◌∷◌, ◌≡◌,
}
use harbor_transfer_portal.Bundle.Checksums.{drop, is_boundary, is_hex_digit, lines_from, take}
use harbor_transfer_portal.Bundle.Text.{Text}

any-append : (p : ℕ → Bool) (s t : Text) → any p (s ++ t) ≡ (any p s || any p t)
any-append p [] t = refl
any-append p (c ∷ s) t = ap (λ b. p c || b) (any-append p s t) ∙ or_assoc (p c) (any p s) (any p t)

length-append : (s t : Text) → length (s ++ t) ≡ length s + length t
length-append [] t = omega arith
length-append (c ∷ s) t = omega (arith, length-append s t)

take-length : (s t : Text) → take (length s) (s ++ t) ≡ s
take-length [] t = refl
take-length (c ∷ s) t = ap (λ r. c ∷ r) (take-length s t)

drop-length : (s t : Text) → drop (length s) (s ++ t) ≡ t
drop-length [] t = refl
drop-length (c ∷ s) t = drop-length s t

take-append : (n : ℕ) (s t : Text) → length s ≡ n → take n (s ++ t) ≡ s
take-append n s t e = ap (λ k. take k (s ++ t)) (sym e) ∙ take-length s t

drop-append : (n : ℕ) (s t : Text) → length s ≡ n → drop n (s ++ t) ≡ t
drop-append n s t e = ap (λ k. drop k (s ++ t)) (sym e) ∙ drop-length s t

not_return : (c : ℕ) → is_boundary c ≡ false → (c == 13) ≡ false
unfolding is_boundary
not_return c h = ground arith

-- A line without boundaries is read up to its line feed.
lines_from-line :
    (s rest : Text)
    → any is_boundary s ≡ false
    → lines_from false (s ++ 10 ∷ rest) ≡ s ∷ lines_from false rest
unfolding is_boundary
lines_from-line [] rest h = refl
lines_from-line (c ∷ s) rest h =
    after_first c s rest (is_boundary c) refl h (lines_from-line s rest)
  where
    after_first :
        (c : ℕ) (s rest : Text) (b : Bool)
        → is_boundary c ≡ b
        → (is_boundary c || any is_boundary s) ≡ false
        → (any is_boundary s ≡ false
            → lines_from false (s ++ 10 ∷ rest) ≡ s ∷ lines_from false rest)
        → lines_from false ((c ∷ s) ++ 10 ∷ rest) ≡ (c ∷ s) ∷ lines_from false rest
    after_first c s rest true e h ih = absurd (ground (arith, e, h))
    after_first c s rest false e h ih =
        rw (not_return c e, e) (rw (ih (let x = rw e at h in x)) refl)

hex-plain : (c : ℕ) → is_hex_digit c ≡ true → is_boundary c ≡ false
unfolding is_boundary
hex-plain c h = ground arith

all_hex-plain : (s : Text) → all is_hex_digit s ≡ true → any is_boundary s ≡ false
all_hex-plain [] h = refl
all_hex-plain (c ∷ s) h =
    let (first, rest) = (and_true_iff (is_hex_digit c) (all is_hex_digit s)).0 h in
    rw (hex-plain c first) (all_hex-plain s rest)

-- An entry that the parser takes after the earlier ones, with a path that fits on a line.
pub record IsEntry (l : BundleLimits) (earlier : Checksums) (path digest : Text) : Type 0 where
  pub digest_ok : is_sha256 digest ≡ true
  pub path_safe : is_unsafe_name l path ≡ false
  pub path_new : is_reserved path earlier ≡ false
  pub path_plain : any is_boundary path ≡ false

abbrev pub IsListing : BundleLimits → Checksums → Checksums → Type 0
IsListing l earlier [] = Unit {0}
IsListing l earlier ((path, digest) ∷ cs) =
    IsEntry l earlier path digest × IsListing l (earlier ++ (path, digest) ∷ []) cs

sha256-length : (s : Text) → is_sha256 s ≡ true → (length s ≡ 64) × (all is_hex_digit s ≡ true)
unfolding is_sha256
sha256-length s h =
    let (size, hex) = (and_true_iff (length s == 64) (all is_hex_digit s)).0 h in
    ((==_iff (length s) 64).0 size, hex)

safe-not_empty : (l : BundleLimits) (path : Text) → is_unsafe_name l path ≡ false → 1 ≤ length path
unfolding is_unsafe_name
safe-not_empty l [] h = cc
safe-not_empty l (c ∷ s) h = omega arith

-- The line of an entry, without its line feed.
abbrev body_of : Text → Text → Text
body_of path digest = digest ++ (32 ∷ (32 ∷ path))

body_of-plain :
    (path digest : Text)
    → is_sha256 digest ≡ true
    → any is_boundary path ≡ false
    → any is_boundary (body_of path digest) ≡ false
unfolding is_boundary
body_of-plain path digest d p =
    any-append is_boundary digest (32 ∷ (32 ∷ path))
    ∙ rw (all_hex-plain digest (sha256-length digest d).1) p

body_of-path : (path digest : Text) → is_sha256 digest ≡ true → drop 66 (body_of path digest) ≡ path
body_of-path path digest d =
    ap (drop 66) (sym (append_assoc digest (32 ∷ (32 ∷ [])) path))
    ∙ drop-append 66 (digest ++ (32 ∷ (32 ∷ []))) path
        (length-append digest (32 ∷ (32 ∷ [])) ∙ omega (arith, (sha256-length digest d).0))

body_of-long :
    (l : BundleLimits) (path digest : Text)
    → is_sha256 digest ≡ true
    → is_unsafe_name l path ≡ false
    → ltb (length (body_of path digest)) 67 ≡ false
body_of-long l path digest d p =
    let size = length-append digest (32 ∷ (32 ∷ path)) in
    let some_path = safe-not_empty l path p in
    let hex = (sha256-length digest d).0 in
    not_shorter (length (body_of path digest)) (length digest) (length path) size hex some_path
  where
    not_shorter : (n d p : ℕ) → n ≡ d + suc (suc p) → d ≡ 64 → 1 ≤ p → ltb n 67 ≡ false
    not_shorter n d p e h k = ground arith

body_of-not_empty : (path digest : Text) → is_empty (body_of path digest) ≡ false
body_of-not_empty path [] = refl
body_of-not_empty path (c ∷ s) = refl

parse_line-body_of :
    (l : BundleLimits) (earlier : Checksums) (path digest : Text)
    → IsEntry l earlier path digest
    → parse_line l (body_of path digest) earlier ≡ ok (earlier ++ (path, digest) ∷ [])
unfolding parse_line
parse_line-body_of l earlier path digest h =
    let hex = (sha256-length digest h.digest_ok).0 in
    let first = take-append 64 digest (32 ∷ (32 ∷ path)) hex in
    let gap = ap (take 2) (drop-append 64 digest (32 ∷ (32 ∷ path)) hex) in
    rw
      (
        body_of-not_empty path digest,
        body_of-long l path digest h.digest_ok h.path_safe,
        gap,
        first,
        body_of-path path digest h.digest_ok,
        h.digest_ok,
        h.path_safe,
        h.path_new,
      )
      refl

checksum_line-body_of :
    (path digest rest : Text) → checksum_line path digest ++ rest ≡ body_of path digest ++ 10 ∷ rest
checksum_line-body_of path digest rest =
    append_assoc digest (32 ∷ (32 ∷ (path ++ 10 ∷ []))) rest
    ∙ ap (λ r. digest ++ (32 ∷ (32 ∷ r))) (append_assoc path (10 ∷ []) rest)
    ∙ sym (append_assoc digest (32 ∷ (32 ∷ path)) (10 ∷ rest))

parse_lines-serialize :
    (l : BundleLimits) (earlier cs : Checksums)
    → IsListing l earlier cs
    → parse_lines l (splitlines (serialize_checksums cs)) earlier ≡ ok (earlier ++ cs)
unfolding parse_lines serialize_checksums
parse_lines-serialize l earlier [] h = ap ok (sym (append-nil earlier))
parse_lines-serialize l earlier ((path, digest) ∷ cs) h =
    rw (checksum_line-body_of path digest (serialize_checksums cs)) (
      rw
        (lines_from-line (body_of path digest) (serialize_checksums cs)
          (body_of-plain path digest h.0.digest_ok h.0.path_plain))
        (rw (parse_line-body_of l earlier path digest h.0) (
          parse_lines-serialize l (earlier ++ (path, digest) ∷ []) cs h.1
          ∙ ap ok (append_assoc earlier ((path, digest) ∷ []) cs))))

-- Entries with valid digests and distinct safe payload paths, none of which has a character at which
-- `splitlines` ends a line, are read back from the text that they are written as.
pub parse_checksums-serialize_checksums :
    (l : BundleLimits) (path digest : Text) (cs : Checksums)
    → IsListing l [] ((path, digest) ∷ cs)
    → parse_checksums l (some (serialize_checksums ((path, digest) ∷ cs)))
      ≡ ok ((path, digest) ∷ cs)
unfolding parse_checksums
parse_checksums-serialize_checksums l path digest cs h =
    rw (parse_lines-serialize l [] ((path, digest) ∷ cs) h) refl

-- ===== src/Bundle/Checksums.antt =====
-- _parse_checksums and _serialize_checksums: the file checksums.sha256, as its decoded text.
use harbor_transfer_portal.Base.{
  Bool, List, Option, [], all, any, err, false, if◌then◌else◌, leb, length, ltb, map, none, not, ok,
  refuse_if, some, suc, zero, ℕ, ◌&&◌, ◌++◌, ◌==◌, ◌>>=◌, ◌>>◌, ◌||◌, ◌∷◌,
}
use harbor_transfer_portal.Bundle.Limits.{BundleLimits, BundleResult, validate_member_name}
use harbor_transfer_portal.Bundle.Members.{is_critical}
use harbor_transfer_portal.Bundle.Text.{Text, among, codes, cons_first, is_empty, same_text}

-- The characters at which `str.splitlines` ends a line.
abbrev line_boundaries : List ℕ
line_boundaries = 10 ∷ 11 ∷ 12 ∷ 13 ∷ 28 ∷ 29 ∷ 30 ∷ 133 ∷ 8232 ∷ 8233 ∷ []

unfoldable pub is_boundary : ℕ → Bool
is_boundary c = any (λ b. b == c) line_boundaries

-- str.splitlines; the flag says that the character before was a carriage return, with which a line
-- feed makes one boundary.
abbrev pub lines_from : Bool → Text → List Text
lines_from cr [] = []
lines_from cr (c ∷ s) =
    let inside = cr && c == 10 in
    let rest = lines_from (not inside && c == 13) s in
    if inside then rest else if is_boundary c then [] ∷ rest else cons_first c rest

abbrev pub splitlines : Text → List Text
splitlines s = lines_from false s

abbrev pub take : ℕ → Text → Text
take zero s = []
take (suc n) [] = []
take (suc n) (c ∷ s) = c ∷ take n s

abbrev pub drop : ℕ → Text → Text
drop zero s = s
drop (suc n) [] = []
drop (suc n) (c ∷ s) = drop n s

-- A digit of _SHA256_RE
abbrev pub is_hex_digit : ℕ → Bool
is_hex_digit c = (leb 48 c && leb c 57) || (leb 97 c && leb c 102)

-- _SHA256_RE.fullmatch
unfoldable pub is_sha256 : Text → Bool
is_sha256 digest = length digest == 64 && all is_hex_digit digest

abbrev pub Checksums : Type 0
Checksums = List (Text × Text)

abbrev pub paths : Checksums → List Text
paths cs = map (λ c. c.0) cs

unfoldable pub is_reserved : Text → Checksums → Bool
is_reserved path entries = is_critical path || among path (paths entries)

-- The body of the loop over the lines.
unfoldable pub parse_line : BundleLimits → Text → Checksums → BundleResult Checksums
parse_line l line entries = do
  refuse_if (is_empty line) "bundle_checksums_invalid"
  refuse_if (ltb (length line) 67 || not (same_text (take 2 (drop 64 line)) (codes "  ")))
      "bundle_checksums_invalid"
  refuse_if (not (is_sha256 (take 64 line))) "bundle_checksums_invalid"
  validate_member_name l (drop 66 line)
  refuse_if (is_reserved (drop 66 line) entries) "bundle_checksums_invalid"
  ok (entries ++ (drop 66 line, take 64 line) ∷ [])

unfoldable pub parse_lines : BundleLimits → List Text → Checksums → BundleResult Checksums
parse_lines l [] entries = ok entries
parse_lines l (line ∷ rest) entries = do
  entries' ← parse_line l line entries
  parse_lines l rest entries'

abbrev pub not_empty : Checksums → BundleResult Checksums
not_empty [] = err "bundle_checksums_invalid"
not_empty (c ∷ cs) = ok (c ∷ cs)

abbrev pub parse_text : BundleLimits → Text → BundleResult Checksums
parse_text l text = do entries ← parse_lines l (splitlines text) []; not_empty entries

-- _parse_checksums; the decoding of UTF-8 is a parameter
unfoldable pub parse_checksums : BundleLimits → Option Text → BundleResult Checksums
parse_checksums l none = err "bundle_checksums_invalid"
parse_checksums l (some text) = parse_text l text

-- f"{digest}  {path}\n"
abbrev pub checksum_line : Text → Text → Text
checksum_line path digest = digest ++ (32 ∷ (32 ∷ (path ++ 10 ∷ [])))

-- _serialize_checksums, as the text that is encoded
unfoldable pub serialize_checksums : Checksums → Text
serialize_checksums [] = []
serialize_checksums ((path, digest) ∷ cs) = checksum_line path digest ++ serialize_checksums cs

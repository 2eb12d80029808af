-- ===== src/Destination/Patterns.antt =====
-- The patterns of names: repositories, projects, tags, digests, chart names and versions. A regular
-- expression is a test on the code points, and a repository is tested component by component.
use harbor_transfer_portal.Base.{
  Bool, [], all, false, if◌then◌else◌, leb, length, true, ℕ, ◌&&◌, ◌==◌, ◌||◌, ◌∷◌,
}
use harbor_transfer_portal.Bundle.Checksums.{drop, is_sha256}
use harbor_transfer_portal.Bundle.Text.{Text, codes, split, starts_with}

abbrev is_digit : ℕ → Bool
is_digit c = leb 48 c && leb c 57

abbrev is_lower : ℕ → Bool
is_lower c = leb 97 c && leb c 122

abbrev is_upper : ℕ → Bool
is_upper c = leb 65 c && leb c 90

-- [a-z0-9]
unfoldable pub is_lower_alnum : ℕ → Bool
is_lower_alnum c = is_digit c || is_lower c

-- [._-]
unfoldable pub is_separator : ℕ → Bool
is_separator c = c == 46 || c == 95 || c == 45

-- [a-z0-9]+(?:[._-][a-z0-9]+)*, from a state that says whether the last character was in [a-z0-9].
unfoldable pub is_component_from : Bool → Text → Bool
is_component_from inside [] = inside
is_component_from inside (c ∷ s) =
    let after_alnum = is_component_from true s in
    let after_separator = is_component_from false s in
    if is_lower_alnum c then after_alnum else inside && is_separator c && after_separator

unfoldable pub is_component : Text → Bool
is_component s = is_component_from false s

-- _REPOSITORY_PATTERN
unfoldable pub is_repository : Text → Bool
is_repository s = all is_component (split 47 s)

abbrev is_word : ℕ → Bool
is_word c = is_digit c || is_lower c || is_upper c

-- One character of a class, and at most 127 of another.
abbrev is_label : (ℕ → Bool) → (ℕ → Bool) → Text → Bool
is_label first later [] = false
is_label first later (c ∷ s) = first c && all later s && leb (length s) 127

-- _TAG_PATTERN
unfoldable pub is_tag : Text → Bool
is_tag s = is_label (λ c. is_word c || c == 95) (λ c. is_word c || is_separator c) s

-- _VERSION_PATTERN
unfoldable pub is_version : Text → Bool
is_version s = is_label is_word (λ c. is_word c || is_separator c || c == 43) s

-- _DIGEST_PATTERN
unfoldable pub is_digest : Text → Bool
is_digest s = starts_with s (codes "sha256:") && is_sha256 (drop 7 s)

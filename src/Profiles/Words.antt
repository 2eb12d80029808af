-- ===== src/Profiles/Words.antt =====
-- str.strip, str.split without an argument and the order of texts, on code points.
use harbor_transfer_portal.Base.{
  Bool, List, [], false, if◌then◌else◌, leb, ltb, not, true, ℕ, ◌&&◌, ◌==◌, ◌||◌, ◌∷◌,
}
use harbor_transfer_portal.Bundle.Text.{Text, cons_first}

-- The code points for which str.isspace holds, and the order of the tests is by range.
unfoldable pub is_space : ℕ → Bool
is_space c =
    (leb 9 c && leb c 13)
    || (leb 28 c && leb c 32)
    || c == 133
    || c == 160
    || c == 5760
    || (leb 8192 c && leb c 8202)
    || c == 8232
    || c == 8233
    || c == 8239
    || c == 8287
    || c == 12288

abbrev lstrip : Text → Text
lstrip [] = []
lstrip (c ∷ s) = let rest = lstrip s in if is_space c then rest else c ∷ s

abbrev keep_unless_space : ℕ → Text → Text
keep_unless_space c [] = if is_space c then [] else c ∷ []
keep_unless_space c (d ∷ s) = c ∷ (d ∷ s)

abbrev rstrip_spaces : Text → Text
rstrip_spaces [] = []
rstrip_spaces (c ∷ s) = keep_unless_space c (rstrip_spaces s)

-- value.strip()
unfoldable pub strip : Text → Text
strip s = rstrip_spaces (lstrip s)

abbrev next_to : Bool → ℕ → List Text → List Text
next_to true c ts = cons_first c ts
next_to false c ts = (c ∷ []) ∷ ts

abbrev starts_word : Text → Bool
starts_word [] = false
starts_word (c ∷ s) = not (is_space c)

-- value.split(): the words between spaces
abbrev pub words : Text → List Text
words [] = []
words (c ∷ s) = let rest = words s in if is_space c then rest else next_to (starts_word s) c rest

-- s <= t for texts
unfoldable pub leb_text : Text → Text → Bool
leb_text [] t = true
leb_text (c ∷ s) [] = false
leb_text (c ∷ s) (d ∷ t) = let rest = leb_text s t in if ltb c d then true else c == d && rest

-- ===== src/Bundle/Text.antt =====
-- Texts by their code points, and what `str` and PurePosixPath do with them.
use Prim.Native.Char.{code}
use Prim.Native.String.{String}
use harbor_transfer_portal.Base.{
  Bool, List, [], any, false, if◌then◌else◌, not, refl, true, ℕ, ◌&&◌, ◌+◌, ◌++◌, ◌==◌, ◌||◌, ◌∷◌,
  ◌≡◌, ◌↔◌, arith, ltb,
}

abbrev pub Text : Type 0
Text = List ℕ

-- The code points of a literal.
abbrev pub codes : String → Text
codes String.[] = []
codes (String.◌∷◌ c s) = code c ∷ codes s

abbrev pub is_empty {ℓ} : {A : Type ℓ} → List A → Bool
is_empty [] = true
is_empty (x ∷ xs) = false

abbrev pub same_text : Text → Text → Bool
same_text [] [] = true
same_text [] (d ∷ t) = false
same_text (c ∷ s) [] = false
same_text (c ∷ s) (d ∷ t) = c == d && same_text s t

pub same_text_iff : (s t : Text) → (same_text s t ≡ true) ↔ (s ≡ t)
same_text_iff [] [] = (λ h. refl, λ h. refl)
same_text_iff [] (d ∷ t) = (λ h. cc, λ h. cc)
same_text_iff (c ∷ s) [] = (λ h. cc, λ h. cc)
same_text_iff (c ∷ s) (d ∷ t) = ground (arith, same_text_iff s t)

abbrev pub among : Text → List Text → Bool
among t ts = any (λ s. same_text s t) ts

-- c in s, for a character
abbrev pub has : ℕ → Text → Bool
has c s = any (λ d. d == c) s

abbrev pub starts_with : Text → Text → Bool
starts_with s [] = true
starts_with [] (p ∷ ps) = false
starts_with (c ∷ s) (p ∷ ps) = c == p && starts_with s ps

-- p in s, for a text
abbrev pub contains : Text → Text → Bool
contains p [] = is_empty p
contains p (c ∷ s) = starts_with (c ∷ s) p || contains p s

abbrev reverse_onto : Text → Text → Text
reverse_onto [] t = t
reverse_onto (c ∷ s) t = reverse_onto s (c ∷ t)

abbrev pub ends_with : Text → Text → Bool
ends_with s p = starts_with (reverse_onto s []) (reverse_onto p [])

abbrev rstrip_kept : ℕ → ℕ → Text → Text
rstrip_kept c d [] = if d == c then [] else d ∷ []
rstrip_kept c d (e ∷ s) = d ∷ (e ∷ s)

-- s.rstrip(c)
abbrev pub rstrip : ℕ → Text → Text
rstrip c [] = []
rstrip c (d ∷ s) = rstrip_kept c d (rstrip c s)

abbrev pub cons_first : ℕ → List Text → List Text
cons_first c [] = (c ∷ []) ∷ []
cons_first c (t ∷ ts) = (c ∷ t) ∷ ts

-- s.split(c), which has at least one part
abbrev pub split : ℕ → Text → List Text
split c [] = [] ∷ []
split c (d ∷ s) = let rest = split c s in if d == c then [] ∷ rest else cons_first d rest

abbrev pub join : ℕ → List Text → Text
join c [] = []
join c (t ∷ []) = t
join c (t ∷ (u ∷ ts)) = t ++ (c ∷ join c (u ∷ ts))

-- The bytes of a code point in UTF-8.
abbrev pub utf8_bytes : ℕ → ℕ
utf8_bytes c = if ltb c 128 then 1 else if ltb c 2048 then 2 else if ltb c 65536 then 3 else 4

-- len(s.encode("utf-8"))
abbrev pub encoded_length : Text → ℕ
encoded_length [] = 0
encoded_length (c ∷ s) = utf8_bytes c + encoded_length s

abbrev slash : ℕ
slash = 47

-- PurePosixPath: its root, and the components between slashes that are neither empty nor ".".
pub record PurePosixPath : Type 0 where
  pub root : Text
  pub components : List Text

abbrev proper : List Text → List Text
proper [] = []
proper (t ∷ ts) =
    let rest = proper ts in if is_empty t || same_text t (codes ".") then rest else t ∷ rest

-- One slash makes the path absolute, and exactly two make another root.
abbrev root_of : Text → Text
root_of s =
    if starts_with s (codes "//") && not (starts_with s (codes "///"))
    then codes "//"
    else if starts_with s (codes "/")
    then codes "/"
    else []

abbrev pub posix_path : Text → PurePosixPath
posix_path s = record { root = root_of s; components = proper (split slash s) }

abbrev pub is_absolute : PurePosixPath → Bool
is_absolute p = not (is_empty p.root)

-- path.parts
abbrev pub parts : PurePosixPath → List Text
parts p = if is_absolute p then p.root ∷ p.components else p.components

-- path.as_posix()
abbrev pub as_posix : PurePosixPath → Text
as_posix p = let s = p.root ++ join slash p.components in if is_empty s then codes "." else s

abbrev pub first_part : PurePosixPath → Text
first_part p = elim (parts p) [ [] ↦ [] | part ∷ rest ↦ part ]

-- ===== src/Policy/Unary.antt =====
-- A notation for ints that is read as it is written: the sign, and as many strokes as the number.
use Prim.Native.String.{String, [], ◌∷◌}
use Prim.Native.Char.{code}
use harbor_transfer_portal.Base.{
  Bool, true, false, ◌==◌, Option, some, none, ℕ, ◌≡◌, refl, ap, suc, zero,
}
use harbor_transfer_portal.Policy.Fields.{Integer, negative, nonnegative}

abbrev strokes : ℕ → String
strokes zero = []
strokes (suc n) = "|" ∷ strokes n

abbrev pub print_unary : Integer → String
print_unary (negative n) = "-" ∷ strokes n
print_unary (nonnegative n) = "+" ∷ strokes n

abbrev size : String → ℕ
size [] = zero
size (c ∷ s) = suc (size s)

abbrev signed : Bool → ℕ → Integer
signed true n = negative n
signed false n = nonnegative n

abbrev pub parse_unary : String → Option Integer
parse_unary [] = none
parse_unary (c ∷ s) = some (signed (code c == 45) (size s))

size-strokes : (n : ℕ) → size (strokes n) ≡ n
size-strokes zero = refl
size-strokes (suc n) = ap suc (size-strokes n)

pub parse_unary-print_unary : (n : Integer) → parse_unary (print_unary n) ≡ some n
parse_unary-print_unary (negative n) = ap (λ k. some (negative k)) (size-strokes n)
parse_unary-print_unary (nonnegative n) = ap (λ k. some (nonnegative k)) (size-strokes n)

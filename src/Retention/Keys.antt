-- ===== src/Retention/Keys.antt =====
-- _valid_storage_key
use Prim.Native.String.{String, [], ◌∷◌, count}
use Prim.Native.Char.{Char, code}
use harbor_transfer_portal.Base.{Bool, true, leb, ◌==◌, ◌&&◌, ◌||◌}

-- character in "0123456789abcdef"
abbrev is_hex : Char → Bool
is_hex c = (leb 48 (code c) && leb (code c) 57) || (leb 97 (code c) && leb (code c) 102)

abbrev all_hex : String → Bool
all_hex [] = true
all_hex (c ∷ s) = is_hex c && all_hex s

unfoldable pub valid_storage_key : String → Bool
valid_storage_key value = count value == 48 && all_hex value

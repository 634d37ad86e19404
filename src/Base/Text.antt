-- ===== src/Base/Text.antt =====
-- The Go functions on strings that the code calls: `strings.TrimSpace` and the length in runes.
use Prim.Native.Nat.{ℕ, suc, ◌+◌}
use Prim.Native.Char.{code}
use Prim.Native.String.{String}
use mathlib.Core.Bool.{Bool, true, false, ◌&&◌, ◌||◌}
use monierave.Base.Tests.{leb, ◌==◌, if◌then◌else◌}

-- `unicode.IsSpace`
unfoldable pub is_space : ℕ → Bool
is_space c =
    (leb 9 c && leb c 13)
    || c == 32
    || c == 0x85
    || c == 0xa0
    || c == 0x1680
    || (leb 0x2000 c && leb c 0x200a)
    || c == 0x2028
    || c == 0x2029
    || c == 0x202f
    || c == 0x205f
    || c == 0x3000

unfoldable pub is_empty : String → Bool
is_empty String.[] = true
is_empty (String.◌∷◌ c s) = false

unfoldable pub trim_left : String → String
unfolding is_space
trim_left String.[] = String.[]
trim_left (String.◌∷◌ c s) =
    let rest = trim_left s in if is_space (code c) then rest else String.◌∷◌ c s

unfoldable pub trim_right : String → String
unfolding is_space is_empty
trim_right String.[] = String.[]
trim_right (String.◌∷◌ c s) =
    let rest = trim_right s in
    if is_empty rest && is_space (code c) then String.[] else String.◌∷◌ c rest

-- `strings.TrimSpace`
unfoldable pub trim_space : String → String
unfolding trim_left trim_right
trim_space s = trim_right (trim_left s)

-- `len([]rune(s))`
unfoldable pub rune_count : String → ℕ
rune_count String.[] = 0
rune_count (String.◌∷◌ c s) = suc (rune_count s)

-- `len(s)`: the bytes of the UTF-8 encoding
unfoldable pub byte_count : String → ℕ
byte_count String.[] = 0
byte_count (String.◌∷◌ c s) =
    (if leb (code c) 0x7f
      then 1
      else if leb (code c) 0x7ff
      then 2
      else if leb (code c) 0xffff
      then 3
      else 4)
    + byte_count s

-- The tables of Unicode: the least code point that differs from a given one in case only, which
-- `strings.EqualFold` goes by, and `lower` of SQL.
pub record LetterCase : Type 0 where
  pub fold : ℕ → ℕ
  pub lower : String → String

-- `strings.EqualFold`
unfoldable pub equal_fold : LetterCase → String → String → Bool
equal_fold lc String.[] String.[] = true
equal_fold lc String.[] (String.◌∷◌ c t) = false
equal_fold lc (String.◌∷◌ c s) String.[] = false
equal_fold lc (String.◌∷◌ c s) (String.◌∷◌ k t) =
    lc.fold (code c) == lc.fold (code k) && equal_fold lc s t

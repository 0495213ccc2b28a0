-- ===== src/Prelude/Format.antt =====
-- What the operator uses of Go's `fmt`: `%d` of an integer and `%q` of a text.
pub mod RoundTrip
use Prim.Native.Nat.{ℕ, zero, suc, ◌+◌, ◌/◌, ◌%◌}
use Prim.Native.Char.{Char, code}
use Prim.Native.String.{String, char_at, [], ◌∷◌, ◌++◌}
use mathlib.Core.Bool.{Bool, true, false, ◌||◌}
use aperture_ai.Prelude.Tests.{ltb, eqb, if◌then◌else◌}
use aperture_ai.Prelude.Int.{ℤ, pos, negsuc}

unfoldable pub digit : ℕ → String
digit d = char_at "0123456789abcdef" d ∷ []

-- The decimal digits of a number below `10 ^ fuel`, the highest first. The cases of an `elim` wait,
-- so the call is made only as long as digits are left.
unfoldable pub decimal : ℕ → ℕ → String
unfolding digit
decimal zero n = []
decimal (suc fuel) n = elim (ltb n 10) [
  | true ↦ digit n
  | false ↦ decimal fuel (n / 10) ++ digit (n % 10)
]

-- `fmt.Sprintf("%d", n)`. A number has fewer digits than its successor counts.
unfoldable pub sprint_int : ℤ → String
unfolding decimal
sprint_int (pos n) = decimal (suc n) n
sprint_int (negsuc n) = "-" ++ decimal (suc (suc n)) (suc n)

-- `width` hexadecimal digits.
unfoldable pub hex : ℕ → ℕ → String
unfolding digit
hex zero n = []
hex (suc width) n = hex width (n / 16) ++ digit (n % 16)

module _ (is_print : ℕ → Bool) where
  -- `appendEscapedRune` of `strconv`, over the table of printable runes.
  unfoldable pub escape_rune : Char → String
  unfolding hex
  escape_rune c =
      let r = code c in
      if eqb r b'"' || eqb r 0x5c
      then "\\" ++ (c ∷ [])
      else if is_print r
      then c ∷ []
      else if eqb r 7
      then "\\a"
      else if eqb r 8
      then "\\b"
      else if eqb r 12
      then "\\f"
      else if eqb r 10
      then "\\n"
      else if eqb r 13
      then "\\r"
      else if eqb r 9
      then "\\t"
      else if eqb r 11
      then "\\v"
      else if ltb r 32 || eqb r 127
      then "\\x" ++ hex 2 r
      else if ltb r 0x10000
      then "\\u" ++ hex 4 r
      else "\\U" ++ hex 8 r

  unfoldable pub escape : String → String
  unfolding escape_rune
  escape [] = []
  escape (c ∷ s) = escape_rune c ++ escape s

  -- `fmt.Sprintf("%q", s)`
  unfoldable pub quote : String → String
  unfolding escape
  quote s = "\"" ++ escape s ++ "\""

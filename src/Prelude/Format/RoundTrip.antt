-- ===== src/Prelude/Format/RoundTrip.antt =====
-- `%d` loses nothing: a decimal reader gets every integer back from its print.
use Prim.Native.Nat.{ℕ, zero, suc, ◌+◌, ◌-◌, ◌*◌, ◌/◌, ◌%◌, ◌<◌, ◌≤◌}
use Prim.Native.Char.{Char, code}
use Prim.Native.String.{String, char_at, [], ◌∷◌, ◌++◌}
use mathlib.Core.Path.{◌≡◌, refl, ◌∙◌, ap, sym}
use mathlib.Core.Logic.{inl, inr}
use mathlib.Core.Bool.{true, false, ◌||◌}
use mathlib.Core.Option
use mathlib.Core.Option.{Option, none, some}
use native.Mathlib.Omega.{arith}
use text.Mathlib.TextLemmas.{nil-append, cons-append, append_assoc, append-nil}
use aperture_ai.Prelude.Tests.{ltb, eqb, if◌then◌else◌, Bool-cases}
use aperture_ai.Prelude.Int.{ℤ, pos, negsuc}
use aperture_ai.Prelude.Format.{digit, decimal, sprint_int}

-- The value of a text of decimal digits that stands behind digits of the value `n`, as a reader
-- such as Python's `int` computes it: `none` at another character.
read_digits : ℕ → String → Option ℕ
read_digits n [] = some n
read_digits n (c ∷ s) =
    let rest = read_digits (n * 10 + (code c - 48)) s in
    if ltb (code c) 48 || ltb 57 (code c) then none else rest

pub read_nat : String → Option ℕ
unfolding read_digits
read_nat [] = none
read_nat (c ∷ s) = read_digits 0 (c ∷ s)

pub negate : ℕ → ℤ
negate zero = pos 0
negate (suc n) = negsuc n

-- A minus sign may stand in front.
pub read_int : String → Option ℤ
read_int [] = none
read_int (c ∷ s) =
    if eqb (code c) 45 then Option.map negate (read_nat s) else Option.map pos (read_nat (c ∷ s))

digit_char : (d : ℕ) → d < 10 → code (char_at "0123456789abcdef" d) ≡ 48 + d
digit_char zero h = refl
digit_char (suc zero) h = refl
digit_char (suc (suc zero)) h = refl
digit_char (suc (suc (suc zero))) h = refl
digit_char (suc (suc (suc (suc zero)))) h = refl
digit_char (suc (suc (suc (suc (suc zero))))) h = refl
digit_char (suc (suc (suc (suc (suc (suc zero)))))) h = refl
digit_char (suc (suc (suc (suc (suc (suc (suc zero))))))) h = refl
digit_char (suc (suc (suc (suc (suc (suc (suc (suc zero)))))))) h = refl
digit_char (suc (suc (suc (suc (suc (suc (suc (suc (suc zero))))))))) h = refl
digit_char (suc (suc (suc (suc (suc (suc (suc (suc (suc (suc d)))))))))) h = absurd (omega arith)

digit-append : (d : ℕ) (s : String) → digit d ++ s ≡ char_at "0123456789abcdef" d ∷ s
unfolding digit
digit-append d s = cons-append _ [] s ∙ ap (λ t. char_at "0123456789abcdef" d ∷ t) (nil-append s)

read_digits-digit :
    (n d : ℕ) (s : String) → d < 10 → read_digits n (digit d ++ s) ≡ read_digits (n * 10 + d) s
unfolding read_digits
read_digits-digit n d s h =
    let value : n * 10 + (48 + d - 48) ≡ n * 10 + d = omega arith in
    rw digit-append (rw (digit_char d h) (rw value (ground arith)))

decimal_small : (fuel n : ℕ) → ltb n 10 ≡ true → decimal (suc fuel) n ≡ digit n
unfolding decimal
decimal_small fuel n h = rw (h, decimal)

decimal_large :
    (fuel n : ℕ) → ltb n 10 ≡ false → decimal (suc fuel) n ≡ decimal fuel (n / 10) ++ digit (n % 10)
unfolding decimal
decimal_large fuel n h = rw (h, decimal)

read_digits-decimal :
    (fuel n : ℕ) (s : String) → n < fuel → read_digits 0 (decimal fuel n ++ s) ≡ read_digits n s
read_digits-decimal zero n s h = absurd (omega arith)
read_digits-decimal (suc fuel) n s h = elim (Bool-cases (ltb n 10)) [
  | inl small ↦
      let value : 0 * 10 + n ≡ n = omega arith in
      rw (decimal_small fuel n small)
        (read_digits-digit 0 n s (ground arith) ∙ ap (λ k. read_digits k s) value)
  | inr large ↦
      let digits : n / 10 * 10 + n % 10 ≡ n = omega arith in
      rw (decimal_large fuel n large) (
        rw append_assoc (
          read_digits-decimal fuel (n / 10) (digit (n % 10) ++ s) (ground arith)
          ∙ (read_digits-digit (n / 10) (n % 10) s (omega arith)
              ∙ ap (λ k. read_digits k s) digits)))
]

-- The first character of a print is a digit.
StartsWithDigit : String → Type 0
StartsWithDigit t = (c : Char) × (s : String) × (t ≡ c ∷ s) × (48 ≤ code c)

digit-StartsWithDigit : (d : ℕ) (s : String) → d < 10 → StartsWithDigit (digit d ++ s)
unfolding StartsWithDigit
digit-StartsWithDigit d s h =
    (char_at "0123456789abcdef" d, s, digit-append d s, omega (arith, digit_char d h))

decimal-StartsWithDigit :
    (fuel n : ℕ) (s : String) → n < fuel → StartsWithDigit (decimal fuel n ++ s)
decimal-StartsWithDigit zero n s h = absurd (omega arith)
decimal-StartsWithDigit (suc fuel) n s h = elim (Bool-cases (ltb n 10)) [
  | inl small ↦ rw (decimal_small fuel n small) (digit-StartsWithDigit n s (ground arith))
  | inr large ↦
      rw (decimal_large fuel n large) (
        rw append_assoc
          (decimal-StartsWithDigit fuel (n / 10) (digit (n % 10) ++ s) (ground arith)))
]

read_digits-nil : (n : ℕ) → read_digits n [] ≡ some n
unfolding read_digits
read_digits-nil n = refl

read_nat-cons : (c : Char) (s : String) → read_nat (c ∷ s) ≡ read_digits 0 (c ∷ s)
unfolding read_nat
read_nat-cons c s = refl

minus-append : (t : String) → "-" ++ t ≡ "-" ∷ t
minus-append t = cons-append "-" [] t ∙ ap (λ u. "-" ∷ u) (nil-append t)

-- A print, taken apart.
decimal_parts :
    (n : ℕ)
    → (c : Char) × (s : String) × (decimal (suc n) n ≡ c ∷ s)
      × (48 ≤ code c)
      × (read_digits 0 (c ∷ s) ≡ some n)
unfolding StartsWithDigit
decimal_parts n =
    let whole = append-nil (decimal (suc n) n) in
    let (c, s, e, d) = decimal-StartsWithDigit (suc n) n [] (omega arith) in
    let e' : decimal (suc n) n ≡ c ∷ s = sym whole ∙ e in
    (
      c,
      s,
      e',
      d,
      ap (read_digits 0) (sym e)
          ∙ (read_digits-decimal (suc n) n [] (omega arith) ∙ read_digits-nil n),
    )

sprint_int-pos : (n : ℕ) → sprint_int (pos n) ≡ decimal (suc n) n
unfolding sprint_int
sprint_int-pos n = refl

sprint_int-negsuc : (n : ℕ) → sprint_int (negsuc n) ≡ "-" ++ decimal (suc (suc n)) (suc n)
unfolding sprint_int
sprint_int-negsuc n = refl

read_int-digits :
    (n : ℕ) (c : Char) (s : String)
    → 48 ≤ code c
    → read_digits 0 (c ∷ s) ≡ some n
    → (read_int (c ∷ s) ≡ some (pos n)) × (read_int ("-" ++ (c ∷ s)) ≡ some (negate n))
unfolding read_int
read_int-digits n c s d e =
    let plus : eqb (code c) 45 ≡ false = ground arith in
    (rw plus (rw read_nat-cons (rw e)), rw minus-append (rw read_nat-cons (rw e)))

-- Every integer is read back from its print, at the fuel that `sprint_int` gives the print.
pub read_int-sprint_int : (z : ℤ) → read_int (sprint_int z) ≡ some z
unfolding negate
read_int-sprint_int (pos n) =
    let (c, s, e, d, r) = decimal_parts n in
    rw (sprint_int-pos n) (rw e ((read_int-digits n c s d r).0))
read_int-sprint_int (negsuc n) =
    let (c, s, e, d, r) = decimal_parts (suc n) in
    rw (sprint_int-negsuc n) (rw e ((read_int-digits (suc n) c s d r).1))

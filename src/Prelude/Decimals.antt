-- ===== src/Prelude/Decimals.antt =====
-- Decimal numbers of 64 bits: `to_string` and `parse::<u64>`.
use Prim.Native.Nat.{ℕ, zero, suc, ◌+◌, ◌-◌, ◌*◌, ◌/◌, ◌%◌, ◌^◌, ◌≤◌, ◌<◌}
use Prim.Native.Char.{Char, code}
use Prim.Native.String.{String, [], ◌∷◌}
use mathlib.Core.Logic.{inl, inr}
use mathlib.Core.Path.{◌≡◌, refl, ap, ◌∙◌}
use mathlib.Core.Bool.{Bool, true, false, ◌&&◌}
use mathlib.Core.Option.{Option, none, some}
use native.Mathlib.Omega.{arith, pow_step}
use isabelle_core.Prelude.Texts.{is_empty}
use isabelle_core.Prelude.Tests.{Bool-cases, nat_eq, ltb, leb, if◌then◌else◌, u64_max}

-- The digit of a number below ten.
unfoldable pub digit_char : ℕ → Char
digit_char d =
    if nat_eq d 0
    then "0"
    else if nat_eq d 1
    then "1"
    else if nat_eq d 2
    then "2"
    else if nat_eq d 3
    then "3"
    else if nat_eq d 4
    then "4"
    else if nat_eq d 5
    then "5"
    else if nat_eq d 6
    then "6"
    else if nat_eq d 7
    then "7"
    else if nat_eq d 8
    then "8"
    else "9"

code-digit_char : (d : ℕ) → d < 10 → code (digit_char d) ≡ 48 + d
unfolding digit_char
code-digit_char zero h = refl
code-digit_char (suc zero) h = refl
code-digit_char (suc (suc zero)) h = refl
code-digit_char (suc (suc (suc zero))) h = refl
code-digit_char (suc (suc (suc (suc zero)))) h = refl
code-digit_char (suc (suc (suc (suc (suc zero))))) h = refl
code-digit_char (suc (suc (suc (suc (suc (suc zero)))))) h = refl
code-digit_char (suc (suc (suc (suc (suc (suc (suc zero))))))) h = refl
code-digit_char (suc (suc (suc (suc (suc (suc (suc (suc zero)))))))) h = refl
code-digit_char (suc (suc (suc (suc (suc (suc (suc (suc (suc zero))))))))) h = refl
code-digit_char (suc (suc (suc (suc (suc (suc (suc (suc (suc (suc d)))))))))) h = omega arith

-- The last `fuel` digits of `n`, without leading zeros, before `out`.
unfoldable pub digits_from : ℕ → ℕ → String → String
unfolding digit_char
digits_from zero n out = out
digits_from (suc fuel) n out =
    let rest = digits_from fuel (n / 10) (digit_char (n % 10) ∷ out) in
    if ltb n 10 then digit_char (n % 10) ∷ out else rest

-- `n.to_string()`: a `u64` has at most twenty digits.
unfoldable pub to_decimal : ℕ → String
unfolding digits_from
to_decimal n = digits_from 20 n ""

-- The digits of a text, after what has been read; more than a `u64` is an error.
unfoldable pub scan_digits : String → ℕ → Option ℕ
scan_digits [] acc = some acc
scan_digits (c ∷ s) acc =
    let rest = scan_digits s (acc * 10 + (code c - 48)) in
    if leb 48 (code c) && leb (code c) 57 && leb (acc * 10 + (code c - 48)) u64_max
    then rest
    else none

-- `s.parse::<u64>().ok()`: a sign `+` may stand in front, and there is at least one digit.
unfoldable pub parse_digits : String → Option ℕ
unfolding scan_digits
parse_digits [] = none
parse_digits (c ∷ s) = scan_digits (c ∷ s) 0

unfoldable pub parse_u64 : String → Option ℕ
unfolding parse_digits
parse_u64 [] = none
parse_u64 (c ∷ s) = if nat_eq (code c) 43 then parse_digits s else parse_digits (c ∷ s)

-- Every character of a number is a digit.
unfoldable pub is_number : String → Bool
is_number [] = true
is_number (c ∷ s) = leb 48 (code c) && leb (code c) 57 && is_number s

digits_from-is_number :
    (fuel n : ℕ) (out : String) → is_number out ≡ true → is_number (digits_from fuel n out) ≡ true
unfolding digits_from is_number
digits_from-is_number zero n out h = h
digits_from-is_number (suc fuel) n out h =
    let last : is_number (digit_char (n % 10) ∷ out) ≡ true =
      ground (arith, code-digit_char (n % 10) (omega arith)) in
    ground (arith, last, digits_from-is_number fuel (n / 10) (digit_char (n % 10) ∷ out) last)

pub to_decimal-is_number : (n : ℕ) → is_number (to_decimal n) ≡ true
unfolding to_decimal is_number
to_decimal-is_number n = digits_from-is_number 20 n "" refl

scan_last :
    (n : ℕ) (out : String)
    → n ≤ u64_max
    → scan_digits (digit_char (n % 10) ∷ out) (n / 10) ≡ scan_digits out n
unfolding scan_digits
scan_last n out fits =
    let digit : code (digit_char (n % 10)) ≡ 48 + n % 10 = code-digit_char (n % 10) (omega arith) in
    let same : n / 10 * 10 + (code (digit_char (n % 10)) - 48) ≡ n = omega arith in
    ground (arith, digit, same)

ltb-true : (a b : ℕ) → a < b → ltb a b ≡ true
ltb-true a b h = ground arith

scan_digits-one :
    (n : ℕ) (out : String)
    → n < 10
    → n ≤ u64_max
    → scan_digits (digit_char (n % 10) ∷ out) 0 ≡ scan_digits out n
scan_digits-one n out h fits =
    let nothing : 0 ≡ n / 10 = omega arith in
    ap (λ k. scan_digits (digit_char (n % 10) ∷ out) k) nothing ∙ scan_last n out fits

scan_digits-digits_from :
    (fuel n : ℕ) (out : String)
    → n < 10 ^ suc fuel
    → n ≤ u64_max
    → scan_digits (digits_from (suc fuel) n out) 0 ≡ scan_digits out n
unfolding digits_from
scan_digits-digits_from zero n out short fits =
    rw (ltb-true n 10 short) (scan_digits-one n out short fits)
scan_digits-digits_from (suc fuel) n out short fits = elim (Bool-cases (ltb n 10)) [
  | inl small ↦ rw small (scan_digits-one n out (ground arith) fits)
  | inr large ↦ rw large (
      scan_digits-digits_from fuel (n / 10) (digit_char (n % 10) ∷ out)
        (omega (arith, pow_step 10 (suc fuel))) (omega arith)
      ∙ scan_last n out fits)
]

digits_from-full : (fuel n : ℕ) (out : String) → is_empty (digits_from (suc fuel) n out) ≡ false
unfolding digits_from
digits_from-full zero n out = ground arith
digits_from-full (suc fuel) n out =
    ground (arith, digits_from-full fuel (n / 10) (digit_char (n % 10) ∷ out))

-- Reading a text of digits that is not empty: no sign stands in front.
parse_u64-scan :
    (s : String) → is_number s ≡ true → is_empty s ≡ false → parse_u64 s ≡ scan_digits s 0
unfolding parse_u64 parse_digits is_number
parse_u64-scan [] h full = ground arith
parse_u64-scan (c ∷ s) h full =
    let unsigned : nat_eq (code c) 43 ≡ false = ground arith in rw unsigned refl

-- A 64-bit number is read back from its digits.
pub parse_u64-to_decimal : (n : ℕ) → n ≤ u64_max → parse_u64 (to_decimal n) ≡ some n
unfolding to_decimal scan_digits
parse_u64-to_decimal n fits =
    parse_u64-scan (digits_from 20 n "") (to_decimal-is_number n) (digits_from-full 19 n "")
    ∙ scan_digits-digits_from 19 n "" (omega arith) fits

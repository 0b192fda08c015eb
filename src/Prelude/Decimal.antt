-- ===== src/Prelude/Decimal.antt =====
-- strconv.Atoi and the verb %d: numbers in decimal digits, of Go's int.
use native.Mathlib.Omega.{arith}
use mathlib.Core.Path.{◌≡◌, refl, ap, subst, ◌∙◌}
use mathlib.Core.Logic.{inl, inr}
use Prim.Native.Nat.{◌<◌, ℕ, zero, suc, ◌+◌, ◌-◌, ◌*◌, ◌/◌, ◌%◌, ◌^◌}
use mathlib.Core.Bool.{◌&&◌}
use mathlib.Core.Option
use mathlib.Core.Option.{Option, none, some}
use mathlib.Core.List.{[], ◌∷◌, ◌++◌}
use someguy.Prelude.Tests.{Bool-cases, ltb, leb, ◌==◌, if◌then◌else◌}
use someguy.Prelude.Bytes.{Bytes}
use someguy.Prelude.Int.{ℤ, pos, negsuc, opposite}

-- The digits of n, the last one last. The fuel is a bound of the number of digits.
unfoldable pub decimal_digits : ℕ → ℕ → Bytes
decimal_digits zero n = []
decimal_digits (suc fuel) n =
    let more = decimal_digits fuel (n / 10) in
    if ltb n 10 then (b'0' + n) ∷ [] else more ++ ((b'0' + n % 10) ∷ [])

-- An int has at most 19 digits.
unfoldable pub format_int : ℤ → Bytes
unfolding decimal_digits
format_int (pos n) = decimal_digits 20 n
format_int (negsuc n) = b'-' ∷ decimal_digits 20 (suc n)

unfoldable pub digits_value : Bytes → ℕ → Option ℕ
digits_value [] n = some n
digits_value (c ∷ s) n =
    let rest = digits_value s (10 * n + (c - b'0')) in
    if leb b'0' c && leb c b'9' then rest else none

abbrev digits_of : Bytes → Option ℕ
digits_of [] = none
digits_of (c ∷ s) = digits_value (c ∷ s) 0

abbrev up_to : ℕ → ℕ → Option ℕ
up_to bound n = if leb n bound then some n else none

-- none is an error: no digits, another character, or out of range.
unfoldable pub atoi : Bytes → Option ℤ
unfolding digits_value
atoi [] = none
atoi (c ∷ s) =
    if c == b'-'
    then Option.bind (digits_of s) (λ n. Option.map opposite (up_to (2 ^ 63) n))
    else if c == b'+'
    then Option.bind (digits_of s) (λ n. Option.map pos (up_to (2 ^ 63 - 1) n))
    else Option.bind (digits_of (c ∷ s)) (λ n. Option.map pos (up_to (2 ^ 63 - 1) n))

digits_value-append :
    (s : Bytes) (d a : ℕ)
    → d < 10
    → digits_value (s ++ ((b'0' + d) ∷ [])) a ≡ Option.map (λ m. 10 * m + d) (digits_value s a)
unfolding digits_value
digits_value-append [] d a h = ground (arith, h)
digits_value-append (c ∷ s) d a h = ground (arith, digits_value-append s d (10 * a + (c - b'0')) h)

more_digits :
    (fuel n : ℕ)
    → decimal_digits (suc fuel) n ≡ (
        if ltb n 10
        then (b'0' + n) ∷ []
        else decimal_digits fuel (n / 10) ++ ((b'0' + n % 10) ∷ []))
unfolding decimal_digits
more_digits fuel n = refl

one_digit : (n : ℕ) → n < 10 → digits_value ((b'0' + n) ∷ []) 0 ≡ some n
unfolding digits_value
one_digit n h = ground (arith, h)

quotient_fits : (n m : ℕ) → n < 10 * m → n / 10 < m
quotient_fits n m h = omega (arith, h)

quotient_rest : (n : ℕ) → 10 * (n / 10) + n % 10 ≡ n
quotient_rest n = omega arith

rest_fits : (n : ℕ) → n % 10 < 10
rest_fits n = omega arith

power_suc : (fuel : ℕ) → 10 ^ suc fuel ≡ 10 * 10 ^ fuel
power_suc fuel = omega arith

-- Fuel of one step for each digit is enough: the digits read back as the number.
digits_value-decimal_digits :
    (fuel n : ℕ) → n < 10 ^ suc fuel → digits_value (decimal_digits (suc fuel) n) 0 ≡ some n
digits_value-decimal_digits zero n h = rw (more_digits zero n) (ground (arith, h, one_digit n))
digits_value-decimal_digits (suc fuel) n h =
    let rest =
      digits_value-decimal_digits fuel (n / 10)
        (quotient_fits n (10 ^ suc fuel) (subst (λ b. n < b) (power_suc (suc fuel)) h)) in
    elim (Bool-cases (ltb n 10)) [
      | inl e ↦ rw (more_digits (suc fuel) n, e) (one_digit n (ground (arith, e)))
      | inr e ↦
          rw (more_digits (suc fuel) n, e)
            (digits_value-append (decimal_digits (suc fuel) (n / 10)) (n % 10) 0 (rest_fits n)
              ∙ rw rest (ap some (quotient_rest n)))
    ]

-- An int64 that is not negative has digits enough.
format_int-value : (n : ℕ) → n < 2 ^ 63 → digits_value (format_int (pos n)) 0 ≡ some n
unfolding format_int
format_int-value n h = digits_value-decimal_digits 19 n (omega (arith, h))

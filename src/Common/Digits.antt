-- ===== src/Common/Digits.antt =====
-- Numbers in a base up to 16, as `str(n)` and `hex(n)` print them.
use Prim.Native.Nat.{ℕ, zero, suc, ◌+◌, ◌-◌, ◌*◌, ◌/◌, ◌%◌, ◌≤◌, ◌<◌}
use mathlib.Core.Path.{◌≡◌, refl, ◌∙◌}
use mathlib.Core.Logic.{inl, inr, ◌≢◌, ◌⊎◌}
use openipc_tftp.Common.Lists.{All, All-append, length, length-append}
use mathlib.Core.List.{[], ◌∷◌, ◌++◌, foldl}
use native.Mathlib.Omega.{arith}
use openipc_tftp.Common.Tests.{ltb, leb, if◌then◌else◌, Bool-cases}
use openipc_tftp.Common.Text.{Text, codes}

abbrev pub digit_char : ℕ → ℕ
digit_char d = if ltb d 10 then d + b'0' else d + 87

abbrev pub digit_value : ℕ → ℕ
digit_value c = if leb c b'9' then c - b'0' else c - 87

-- The fuel is one more than the number, which is enough in any base above 1.
digits_from : ℕ → ℕ → ℕ → Text
digits_from base zero n = []
digits_from base (suc fuel) n =
    let rest = digits_from base fuel (n / base) in
    if ltb n base then digit_char n ∷ [] else rest ++ digit_char (n % base) ∷ []

unfoldable pub digits : ℕ → ℕ → Text
unfolding digits_from
digits base n = digits_from base (suc n) n

abbrev pub str : ℕ → Text
str n = digits 10 n

abbrev pub hex : ℕ → Text
hex n = b'0' ∷ b'x' ∷ digits 16 n

-- The number that digits spell behind `n`.
abbrev pub value : ℕ → ℕ → Text → ℕ
value base = foldl (λ n c. n * base + digit_value c)

abbrev pub IsDigit : ℕ → Type 0
IsDigit c = (c < 128) × (c ≢ b'/') × (c ≢ b'%') × (b'0' ≤ c) × (c ≤ b'f')

value-append :
    (base n : ℕ) (s : Text) (c : ℕ)
    → value base n (s ++ c ∷ []) ≡ value base n s * base + digit_value c
value-append base n [] c = refl
value-append base n (d ∷ s) c = value-append base (n * base + digit_value d) s c

digit_value_char : (d : ℕ) → d < 16 → digit_value (digit_char d) ≡ d
digit_value_char d h = ground arith

hex_fuel : (fuel n : ℕ) → n < fuel → value 16 0 (digits_from 16 fuel n) ≡ n
unfolding digits_from
hex_fuel zero n h = absurd (omega arith)
hex_fuel (suc fuel) n h = elim (Bool-cases (ltb n 16)) [
  | inl small ↦ rw small (ground (arith, digit_value_char n))
  | inr large ↦ rw large (
      value-append 16 0 (digits_from 16 fuel (n / 16)) (digit_char (n % 16))
      ∙ ground (arith, hex_fuel fuel (n / 16), digit_value_char (n % 16)))
]

-- Hexadecimal digits spell the number that they print.
pub value-digits : (n : ℕ) → value 16 0 (digits 16 n) ≡ n
unfolding digits
value-digits n = hex_fuel (suc n) n (omega arith)

abbrev pub IsHexDigit : ℕ → Type 0
IsHexDigit c = (b'0' ≤ c) × (c ≤ b'9') ⊎ (b'a' ≤ c) × (c ≤ b'f')

digit_char-IsHexDigit : (d : ℕ) → d < 16 → IsHexDigit (digit_char d)
digit_char-IsHexDigit d h = elim (Bool-cases (ltb d 10)) [
  | inl small ↦ rw small (inl (omega arith, ground arith))
  | inr large ↦ rw large (inr (ground arith, omega arith))
]

hex_digits_fuel :
    (fuel n : ℕ)
    → n < fuel
    → All IsHexDigit (digits_from 16 fuel n) × (0 < length (digits_from 16 fuel n))
unfolding digits_from
hex_digits_fuel zero n h = absurd (omega arith)
hex_digits_fuel (suc fuel) n h = elim (Bool-cases (ltb n 16)) [
  | inl small ↦ rw small ((digit_char-IsHexDigit n (ground arith), tt), omega arith)
  | inr large ↦ rw large (
    All-append IsHexDigit (digits_from 16 fuel (n / 16)) (digit_char (n % 16) ∷ [])
        (hex_digits_fuel fuel (n / 16) (ground arith)).0
        (digit_char-IsHexDigit (n % 16) (omega arith), tt),
    omega (arith, length-append (digits_from 16 fuel (n / 16)) (digit_char (n % 16) ∷ [])),
  )
]

-- A number has hexadecimal digits only, and at least one.
pub hex_digits : (n : ℕ) → All IsHexDigit (digits 16 n) × (0 < length (digits 16 n))
unfolding digits
hex_digits n = hex_digits_fuel (suc n) n (omega arith)

hex_check : hex 48879 ≡ codes "0xbeef"
unfolding digits
hex_check = refl

str_check : str 1005 ≡ codes "1005"
unfolding digits
str_check = refl

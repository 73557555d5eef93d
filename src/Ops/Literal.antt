-- ===== src/Ops/Literal.antt =====
-- Numbers that the scripts print as hexadecimal literals are read back.
use openipc_tftp.Common.{
  ℕ, ◌<◌, ◌≡◌, refl, ap, inl, inr, true, false, [], ◌∷◌, ok, arith, All, all_of, length, is_empty,
}
use openipc_tftp.Common.Text.{Text, lower, lower_char, starts_with}
use openipc_tftp.Common.Digits.{hex, digits, value-digits, IsHexDigit, hex_digits}
use openipc_tftp.Env.Layout.{int_of, is_digit_of}
use openipc_tftp.Ops.{int_literal}

digits_kept : (s : Text) → All IsHexDigit s → (lower s ≡ s) × (all_of (is_digit_of 16) s ≡ true)
unfolding lower
digits_kept [] h = (refl, refl)
digits_kept (c ∷ s) (h, hs) =
    let (e, f) = digits_kept s hs in let (a, b) = kept c h in (rw (a, e) refl, rw (b, f) refl)
  where
    kept : (c : ℕ) → IsHexDigit c → (lower_char c ≡ c) × (is_digit_of 16 c ≡ true)
    kept c (inl h) = (ground arith, ground arith)
    kept c (inr h) = (ground arith, ground arith)

not_empty : (s : Text) → 0 < length s → is_empty s ≡ false
not_empty [] h = elim h [ ]
not_empty (c ∷ s) h = refl

pub int_literal-hex : (n : ℕ) → int_literal (hex n) ≡ ok n
unfolding int_literal starts_with lower int_of
int_literal-hex n =
    let (all_hex, some_digit) = hex_digits n in
    let (e, f) = digits_kept (digits 16 n) all_hex in
    rw e (rw (not_empty (digits 16 n) some_digit) (rw f (ap ok (value-digits n))))

-- ===== src/Handlers/Read/Parameters/Numbers.antt =====
-- `parse_timeout` of src/handlers/read_handler.cpp reads what `std::to_string` writes.
use cometvisu_knxd_fcgi.Prelude.Int.{ℤ, pos, negsuc}
use cometvisu_knxd_fcgi.Prelude.Decimal.{
  to_decimal, AllDigits, to_decimal-AllDigits, digits_value-to_decimal, length-to_decimal_pos,
}
use cometvisu_knxd_fcgi.Util.JsonBuilder.{number_text}
use cometvisu_knxd_fcgi.Handlers.Read.Parameters.{
  all_digits, bounded_number, parse_timeout, is_empty, positive, negative,
}
use cometvisu_knxd_fcgi.Prelude.{
  ℕ, suc, ◌-◌, ◌^◌, ◌≤◌, ◌<◌, ◌≡◌, refl, true, some, [], ◌∷◌, arith, Bytes, length, ap, ◌∙◌, false,
  leb, ◌==◌, is_empty,
}

abbrev pub IsInt : ℤ → Type 0
IsInt (pos n) = n < 2 ^ 31
IsInt (negsuc n) = n < 2 ^ 31

AllDigits-all_digits : (s : Bytes) → AllDigits s → all_digits s ≡ true
unfolding all_digits
AllDigits-all_digits [] d = refl
AllDigits-all_digits (c ∷ s) (p, d) = ground (arith, AllDigits-all_digits s d)

nonempty : (s : Bytes) → 0 < length s → is_empty s ≡ false
nonempty [] p = absurd (omega arith)
nonempty (c ∷ s) p = refl

bounded_number-to_decimal : (limit n : ℕ) → n ≤ limit → bounded_number limit (to_decimal n) ≡ some n
unfolding bounded_number
bounded_number-to_decimal limit n h =
    let e = nonempty (to_decimal n) (length-to_decimal_pos n) in
    let digits = AllDigits-all_digits (to_decimal n) (to_decimal-AllDigits n) in
    let fits : leb n limit ≡ true = ground arith in rw (e, digits, digits_value-to_decimal n, fits)

parse_timeout-digits :
    (s : Bytes)
    → AllDigits s
    → 0 < length s
    → parse_timeout s ≡ positive (bounded_number (2 ^ 31 - 1) s)
unfolding parse_timeout
parse_timeout-digits [] d p = absurd (omega arith)
parse_timeout-digits (c ∷ s) ((l, u), d) p =
    let other : (c == b'-') ≡ false = ground arith in rw other

-- Every value of `int` is read back from its decimal text.
pub parse_timeout-number_text : (z : ℤ) → IsInt z → parse_timeout (number_text z) ≡ some z
unfolding parse_timeout
parse_timeout-number_text (pos n) h =
    parse_timeout-digits (to_decimal n) (to_decimal-AllDigits n) (length-to_decimal_pos n)
    ∙ ap positive (bounded_number-to_decimal (2 ^ 31 - 1) n (omega arith))
parse_timeout-number_text (negsuc n) h =
    ap negative (bounded_number-to_decimal (2 ^ 31) (suc n) (omega arith))

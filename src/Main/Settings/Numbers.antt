-- ===== src/Main/Settings/Numbers.antt =====
-- The bounds of the settings of src/main.cpp.
use cometvisu_knxd_fcgi.Prelude.Int.{ℤ, pos, negsuc}
use cometvisu_knxd_fcgi.Prelude.Decimal.{
  to_decimal, digits_value, AllDigits, to_decimal-AllDigits, digits_value-to_decimal,
  length-to_decimal_pos,
}
use cometvisu_knxd_fcgi.Knxd.Address.{is_digit}
use cometvisu_knxd_fcgi.Fcgi.Server.{leading_digits}
use cometvisu_knxd_fcgi.Main.Settings.{
  long_max, is_space, strtol, scan_sign, scan_number, skip_spaces, to_long, to_int, at_most,
  checked_number, parse_env_int, config,
}
use cometvisu_knxd_fcgi.Prelude.{
  ℕ, ◌^◌, ◌≤◌, ◌<◌, ◌≡◌, refl, Option, none, some, [], ◌∷◌, Bytes, ◌-◌, ◌%◌, min, ap, ◌∙◌, inl, inr,
  true, false, ◌&&◌, ◌||◌, arith, ltb, leb, ◌==◌, if◌then◌else◌, length, Bool-cases, codes, drop,
}

-- A number that `int` holds.
unfoldable pub IsSmall : Option Bytes → Type 0
IsSmall none = Unit {0}
IsSmall (some s) = (n : ℕ) → strtol s ≡ some (pos n, []) → n < 2 ^ 31

unfoldable pub Within : ℕ → ℕ → ℤ → Type 0
Within low high z = (n : ℕ) × ((z ≡ pos n) × ((low ≤ n) × (n ≤ high)))

pub to_int-small : (n : ℕ) → n < 2 ^ 31 → to_int n ≡ pos n
unfolding to_int
to_int-small n h =
    let whole : n % 2 ^ 32 ≡ n = omega arith in
    let test : ltb n (2 ^ 31) ≡ true = ground arith in rw (whole, test)

-- From 2^31 on, a number is read as a negative one.
pub to_int-negative : (n : ℕ) → 2 ^ 31 ≤ n → n < 2 ^ 32 → to_int n ≡ negsuc (2 ^ 32 - 1 - n)
unfolding to_int
to_int-negative n h k =
    let whole : n % 2 ^ 32 ≡ n = omega arith in
    let test : ltb n (2 ^ 31) ≡ false = ground arith in rw (whole, test)

checked_number-Within :
    (d low high : ℕ) (number : Option (ℤ × Bytes))
    → low ≤ d
    → d ≤ high
    → low ≤ high
    → ((n : ℕ) → number ≡ some (pos n, []) → n < 2 ^ 31)
    → Within low high (checked_number d low high number)
unfolding Within at_most
checked_number-Within d low high none a b c small = (d, (refl, (a, b)))
checked_number-Within d low high (some (negsuc n, [])) a b c small = (d, (refl, (a, b)))
checked_number-Within d low high (some (negsuc n, x ∷ rest)) a b c small = (d, (refl, (a, b)))
checked_number-Within d low high (some (pos n, x ∷ rest)) a b c small = (d, (refl, (a, b)))
checked_number-Within d low high (some (pos n, [])) a b c small = elim (Bool-cases (ltb n low)) [
  | inl e ↦ (d, (rw e, (a, b)))
  | inr e ↦ (
    min n high,
    (
      rw (e, to_int-small n (small n refl)),
      (let above : low ≤ n = ground arith in omega arith, omega arith),
    ),
  )
]

-- For any text, unless its number is too large for `int`.
pub parse_env_int-Within :
    (val : Option Bytes) (default_val min_val max_val : ℕ)
    → min_val ≤ default_val
    → default_val ≤ max_val
    → IsSmall val
    → Within min_val max_val (parse_env_int val default_val min_val max_val)
unfolding parse_env_int IsSmall
parse_env_int-Within none d low high a b small =
    checked_number-Within d low high none a b (omega arith) (λ n e. ground arith)
parse_env_int-Within (some []) d low high a b small =
    checked_number-Within d low high none a b (omega arith) (λ n e. ground arith)
parse_env_int-Within (some (c ∷ s)) d low high a b small =
    checked_number-Within d low high (strtol (c ∷ s)) a b (omega arith) small

-- The text of a number is read whole.
leading_digits-all : (s : Bytes) → AllDigits s → leading_digits s ≡ s
unfolding leading_digits
leading_digits-all [] h = refl
leading_digits-all (c ∷ s) h =
    let digit : is_digit c ≡ true = ground arith in
    rw digit (ap (λ (t : Bytes). c ∷ t) (leading_digits-all s h.1))

drop-all : (s : Bytes) → drop (length s) s ≡ []
drop-all [] = refl
drop-all (c ∷ s) = drop-all s

scan_number-digits :
    (c : ℕ) (s : Bytes)
    → AllDigits (c ∷ s)
    → scan_number false (c ∷ s) ≡ some (pos (min (digits_value 0 (c ∷ s)) long_max), [])
unfolding scan_number to_long
scan_number-digits c s h = rw (leading_digits-all (c ∷ s) h) (rw (drop-all s))

strtol-digits :
    (s : Bytes)
    → AllDigits s
    → 0 < length s
    → strtol s ≡ some (pos (min (digits_value 0 s) long_max), [])
unfolding strtol skip_spaces scan_sign is_space
strtol-digits [] h p = ground arith
strtol-digits (c ∷ s) h p =
    let solid : ((c == 32) || (leb 9 c && leb c 13)) ≡ false = ground arith in
    let minus : (c == b'-') ≡ false = ground arith in
    let plus : (c == b'+') ≡ false = ground arith in
    rw (solid, minus, plus) (scan_number-digits c s h)

pub strtol-to_decimal : (n : ℕ) → n < 2 ^ 63 → strtol (to_decimal n) ≡ some (pos n, [])
strtol-to_decimal n h =
    strtol-digits (to_decimal n) (to_decimal-AllDigits n) (length-to_decimal_pos n)
    ∙ ap (λ (k : ℕ). some (pos k, []))
        (ap (λ (k : ℕ). min k long_max) (digits_value-to_decimal n) ∙ omega arith)

parse_env_int-text :
    (s : Bytes) (d low high : ℕ)
    → 0 < length s
    → parse_env_int (some s) d low high ≡ checked_number d low high (strtol s)
unfolding parse_env_int
parse_env_int-text [] d low high h = ground arith
parse_env_int-text (c ∷ s) d low high h = refl

parse_env_int-to_long :
    (n d low high : ℕ)
    → n < 2 ^ 63
    → parse_env_int (some (to_decimal n)) d low high ≡ checked_number d low high (some (pos n, []))
parse_env_int-to_long n d low high h =
    parse_env_int-text (to_decimal n) d low high (length-to_decimal_pos n)
    ∙ ap (checked_number d low high) (strtol-to_decimal n h)

-- The number in decimal, where `int` holds it.
pub parse_env_int-to_decimal :
    (n default_val min_val max_val : ℕ)
    → n < 2 ^ 31
    → parse_env_int (some (to_decimal n)) default_val min_val max_val
      ≡ pos (if ltb n min_val then default_val else min n max_val)
unfolding at_most
parse_env_int-to_decimal n d low high h =
    parse_env_int-to_long n d low high (omega arith)
    ∙ elim (Bool-cases (ltb n low)) [ inl e ↦ rw e | inr e ↦ rw (e, to_int-small n h) ]

-- A decimal number from 2^31 on, below 2^32 and not below min_val, is not clamped to max_val: the
-- result is negative.
pub parse_env_int-negative :
    (n default_val min_val max_val : ℕ)
    → min_val ≤ n
    → 2 ^ 31 ≤ n
    → n < 2 ^ 32
    → parse_env_int (some (to_decimal n)) default_val min_val max_val ≡ negsuc (2 ^ 32 - 1 - n)
unfolding at_most
parse_env_int-negative n d low high a h k =
    let test : ltb n low ≡ false = ground arith in
    parse_env_int-to_long n d low high (omega arith) ∙ rw (test, to_int-negative n h k)

-- For every environment in which the two numbers are not above the largest int, main serves with a
-- timeout of 1 to 3600 seconds and with 1 to 256 workers, whatever the texts are.
pub config-bounds :
    (getenv : Bytes → Option Bytes)
    → IsSmall (getenv (codes "LONGPOLL_TIMEOUT_SEC"))
    → IsSmall (getenv (codes "FCGI_WORKERS"))
    → Within 1 3600 (config getenv).longpoll_timeout × Within 1 256 (config getenv).num_workers
unfolding config
config-bounds getenv a b = (
  parse_env_int-Within (getenv (codes "LONGPOLL_TIMEOUT_SEC")) 300 1 3600 (omega arith)
      (omega arith) a,
  parse_env_int-Within (getenv (codes "FCGI_WORKERS")) 20 1 256 (omega arith) (omega arith) b,
)

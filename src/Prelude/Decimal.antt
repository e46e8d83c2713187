-- ===== src/Prelude/Decimal.antt =====
-- `std::to_string` on natural numbers, and the value of a run of decimal digits.
use Prim.Native.Nat.{ℕ, zero, suc, ◌+◌, ◌-◌, ◌*◌, ◌/◌, ◌%◌, ◌≤◌, ◌<◌}
use mathlib.Core.Path.{◌≡◌, refl}
use mathlib.Core.List.{[], ◌∷◌, ◌++◌}
use mathlib.Core.Logic.{dite, dif_pos, dif_neg}
use mathlib.Core.WellFounded.{Acc}
use native.Mathlib.Decide.{dec_lt}
use native.Mathlib.Bridge.{le_prop}
use native.Mathlib.Omega.{arith}
use cometvisu_knxd_fcgi.Prelude.Lists.{All, All-append, length, length-append}
use cometvisu_knxd_fcgi.Prelude.Strings.{Bytes}

acc_below : (k n : ℕ) → n < k → Acc ◌<◌ n
acc_below zero n h = absurd (omega arith)
acc_below (suc k) n h = Acc.intro n (λ m lt. acc_below k m (omega arith))

pub tenth-lt : (n : ℕ) → 9 < n → n / 10 < n
tenth-lt n h = omega arith

pub ready : (n : ℕ) → Acc ◌<◌ n
unfolding acc_below
ready n = acc_below (suc n) n (omega arith)

-- The digits of `n`, the lowest last.
emit : (n : ℕ) → Acc ◌<◌ n → Bytes
emit n (Acc.intro _ smaller) =
    dite (dec_lt 9 n) (λ h. emit (n / 10) (smaller (n / 10) (tenth-lt n h)) ++ (b'0' + n % 10) ∷ [])
      (λ _. (b'0' + n) ∷ [])

unfoldable pub to_decimal : ℕ → Bytes
unfolding emit ready dec_lt
to_decimal n = emit n (ready n)

-- What a run of digits adds to a value read so far.
abbrev pub digits_value : ℕ → Bytes → ℕ
digits_value val [] = val
digits_value val (c ∷ s) = digits_value (val * 10 + (c - b'0')) s

abbrev pub AllDigits : Bytes → Type 0
AllDigits = All λ c. (b'0' ≤ c) × (c ≤ b'9')

pub digits_value-append :
    (s t : Bytes) (val : ℕ) → digits_value val (s ++ t) ≡ digits_value (digits_value val s) t
digits_value-append [] t val = refl
digits_value-append (c ∷ s) t val = digits_value-append s t (val * 10 + (c - b'0'))

emit_lem :
    (n : ℕ) (w : Acc ◌<◌ n)
    → AllDigits (emit n w) × (digits_value 0 (emit n w) ≡ n) × (0 < length (emit n w))
unfolding emit
emit_lem n (Acc.intro _ smaller) = elim (dec_lt 9 n) [
  | no p ↦ rw (dif_neg _ p) ((omega arith, tt), omega arith, omega arith)
  | yes p ↦
      let w = smaller (n / 10) (tenth-lt n p) in
      let (d, v, l) = emit_lem (n / 10) (smaller (n / 10) (tenth-lt n p)) in
      rw (dif_pos _ le_prop p) (
        All-append _ (emit (n / 10) w) ((b'0' + n % 10) ∷ []) d (omega arith, tt),
        rw (digits_value-append (emit (n / 10) w) ((b'0' + n % 10) ∷ []) 0, v) (omega arith),
        omega (arith, length-append {0} (emit (n / 10) w) ((b'0' + n % 10) ∷ [])),
      )
]

pub to_decimal-AllDigits : (n : ℕ) → AllDigits (to_decimal n)
unfolding to_decimal
to_decimal-AllDigits n = (emit_lem n (ready n)).0

pub digits_value-to_decimal : (n : ℕ) → digits_value 0 (to_decimal n) ≡ n
unfolding to_decimal
digits_value-to_decimal n = (emit_lem n (ready n)).1

pub length-to_decimal_pos : (n : ℕ) → 0 < length (to_decimal n)
unfolding to_decimal
length-to_decimal_pos n = (emit_lem n (ready n)).2

pub le-digits_value : (s : Bytes) (val : ℕ) → val ≤ digits_value val s
le-digits_value [] val = omega arith
le-digits_value (c ∷ s) val = omega (arith, le-digits_value s (val * 10 + (c - b'0')))

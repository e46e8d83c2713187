-- ===== src/Prelude/Bits.antt =====
-- The bit operations of the C++ sources at the masks and shifts that they use.
use Prim.Native.Nat.{
  ℕ, zero, suc, ◌+◌, ◌*◌, ◌/◌, ◌%◌, ◌≤◌, ◌<◌, min, max, bit_and, bit_or, digits, bitwise,
  bit_and-bitwise, bit_or-bitwise,
}
use mathlib.Core.Path.{◌≡◌, refl, ap, ◌∙◌}
use native.Mathlib.Decide.{dec_le}
use mathlib.Core.Bool.{Bool, true, ◌&&◌}
use native.Mathlib.Omega.{arith}
use cometvisu_knxd_fcgi.Prelude.{
  ℕ, zero, suc, ◌+◌, ◌*◌, ◌/◌, ◌%◌, ◌≤◌, ◌<◌, min, ◌≡◌, refl, ap, ◌∙◌, Bool, true, ◌&&◌, arith,
}

-- A test that passes at every number under a bound, found by running it.
unfoldable pub passes : (ℕ → Bool) → ℕ → Bool
passes test zero = true
passes test (suc bound) = passes test bound && test bound

pub passes_at :
    (test : ℕ → Bool) (bound : ℕ) → passes test bound ≡ true → (k : ℕ) → k < bound → test k ≡ true
unfolding passes
passes_at test zero all k lt = elim lt [ ]
passes_at test (suc bound) all k lt = ground (arith, passes_at test bound (ground arith) k)

-- The recursion on binary digits may be given more rounds than it needs.
module _ (z : ℕ → ℕ) (f : ℕ → ℕ → ℕ) where
  one_more : (n a b : ℕ) → a ≤ n → digits z f (suc n) a b ≡ digits z f n a b
  one_more zero zero b h = refl
  one_more (suc n) zero b h = refl
  one_more zero (suc a) b h = absurd (omega arith)
  one_more (suc n) (suc a) b h =
      ap (λ t. t * 2 + f (suc a % 2) (b % 2)) (one_more n (suc a / 2) (b / 2) (omega arith))

  enough : (n a b : ℕ) → a ≤ n → digits z f n a b ≡ bitwise z f a b
  enough zero zero b h = refl
  enough zero (suc a) b h = absurd (omega arith)
  enough (suc n) a b h = elim (dec_le a n) [
    | yes p ↦ one_more n a b p ∙ enough n a b p
    | no q ↦ let e : a ≡ suc n = omega arith in rw e
  ]

-- Any operation with this meaning works digit by digit, also once the first number has run out.
module _ (z : ℕ → ℕ) (f op : ℕ → ℕ → ℕ) (meaning : (a b : ℕ) → op a b ≡ bitwise z f a b)
    (run_out : (b : ℕ) → z b ≡ z (b / 2) * 2 + f 0 (b % 2)) where
  halve : (a b : ℕ) → op a b ≡ op (a / 2) (b / 2) * 2 + f (a % 2) (b % 2)
  halve zero b = rw (meaning 0 b, meaning 0 (b / 2)) (run_out b)
  halve (suc a) b =
      let rounds = enough z f a (suc a / 2) (b / 2) (omega arith) in
      rw (meaning (suc a) b, meaning (suc a / 2) (b / 2))
        (ap (λ t. t * 2 + f (suc a % 2) (b % 2)) rounds)

bit_and_step :
    (x mask : ℕ) → bit_and x mask ≡ bit_and (x / 2) (mask / 2) * 2 + min (x % 2) (mask % 2)
bit_and_step = halve (λ _. 0) min bit_and bit_and-bitwise (λ b. omega arith)

bit_or_step : (x y : ℕ) → bit_or x y ≡ bit_or (x / 2) (y / 2) * 2 + max (x % 2) (y % 2)
bit_or_step = halve (λ b. b) max bit_or bit_or-bitwise (λ b. omega arith)

-- Both operations with 0 on the right, below any bound.
with_zero : (k a : ℕ) → a < k → (bit_and a 0 ≡ 0) × (bit_or a 0 ≡ a)
with_zero zero a h = absurd (omega arith)
with_zero (suc k) zero h = (bit_and-bitwise 0 0, bit_or-bitwise 0 0)
with_zero (suc k) (suc a) h =
    let (p, q) = with_zero k (suc a / 2) (omega arith) in
    (omega (arith, bit_and_step (suc a) 0), omega (arith, bit_or_step (suc a) 0))

bit_and-zero : (a : ℕ) → bit_and a 0 ≡ 0
bit_and-zero a = (with_zero (suc a) a (omega arith)).0

bit_or-zero : (a : ℕ) → bit_or a 0 ≡ a
bit_or-zero a = (with_zero (suc a) a (omega arith)).1

bit_and-1 : (a : ℕ) → bit_and a 1 ≡ a % 2
bit_and-1 a = omega (arith, bit_and_step a 1, bit_and-zero (a / 2))

bit_and-3 : (a : ℕ) → bit_and a 3 ≡ a % 4
bit_and-3 a = omega (arith, bit_and_step a 3, bit_and-1 (a / 2))

pub bit_and-0x07 : (a : ℕ) → bit_and a 0x07 ≡ a % 8
bit_and-0x07 a = omega (arith, bit_and_step a 7, bit_and-3 (a / 2))

pub bit_and-0x0f : (a : ℕ) → bit_and a 0x0f ≡ a % 16
bit_and-0x0f a = omega (arith, bit_and_step a 15, bit_and-0x07 (a / 2))

pub bit_and-0x1f : (a : ℕ) → bit_and a 0x1f ≡ a % 32
bit_and-0x1f a = omega (arith, bit_and_step a 31, bit_and-0x0f (a / 2))

pub bit_and-0x3f : (a : ℕ) → bit_and a 0x3f ≡ a % 64
bit_and-0x3f a = omega (arith, bit_and_step a 63, bit_and-0x1f (a / 2))

bit_and-0x7f : (a : ℕ) → bit_and a 0x7f ≡ a % 128
bit_and-0x7f a = omega (arith, bit_and_step a 127, bit_and-0x3f (a / 2))

pub bit_and-0xff : (a : ℕ) → bit_and a 0xff ≡ a % 256
bit_and-0xff a = omega (arith, bit_and_step a 255, bit_and-0x7f (a / 2))

-- The step at an even number on the left.
bit_or_double : (c b : ℕ) → bit_or (c * 2) b ≡ bit_or c (b / 2) * 2 + b % 2
bit_or_double c b =
    let e : c * 2 / 2 ≡ c = omega arith in
    let step : bit_or (c * 2) b ≡ bit_or c (b / 2) * 2 + max (c * 2 % 2) (b % 2) =
      rw e at (bit_or_step (c * 2) b) in
    omega arith

-- A number shifted left by k places has no bit in common with one below 2 ^ k.
or_shl_0 : (a b : ℕ) → b < 1 → bit_or (a * 1) b ≡ a * 1 + b
or_shl_0 a b h = let e : b ≡ 0 = omega arith in rw e (omega (arith, bit_or-zero (a * 1)))

or_shl_step :
    (m a b : ℕ)
    → ((d : ℕ) → d < m → bit_or (a * m) d ≡ a * m + d)
    → b < m * 2
    → bit_or (a * (m * 2)) b ≡ a * (m * 2) + b
or_shl_step m a b ih h =
    let e : a * (m * 2) ≡ a * m * 2 = omega arith in
    rw e (omega (arith, bit_or_double (a * m) b, ih (b / 2) (omega arith)))

or_shl_1 : (a b : ℕ) → b < 2 → bit_or (a * 2) b ≡ a * 2 + b
or_shl_1 a b h = or_shl_step 1 a b (or_shl_0 a) h

or_shl_2 : (a b : ℕ) → b < 4 → bit_or (a * 4) b ≡ a * 4 + b
or_shl_2 a b h = or_shl_step 2 a b (or_shl_1 a) h

or_shl_3 : (a b : ℕ) → b < 8 → bit_or (a * 8) b ≡ a * 8 + b
or_shl_3 a b h = or_shl_step 4 a b (or_shl_2 a) h

pub or_shl_4 : (a b : ℕ) → b < 16 → bit_or (a * 16) b ≡ a * 16 + b
or_shl_4 a b h = or_shl_step 8 a b (or_shl_3 a) h

or_shl_5 : (a b : ℕ) → b < 32 → bit_or (a * 32) b ≡ a * 32 + b
or_shl_5 a b h = or_shl_step 16 a b (or_shl_4 a) h

or_shl_6 : (a b : ℕ) → b < 64 → bit_or (a * 64) b ≡ a * 64 + b
or_shl_6 a b h = or_shl_step 32 a b (or_shl_5 a) h

or_shl_7 : (a b : ℕ) → b < 128 → bit_or (a * 128) b ≡ a * 128 + b
or_shl_7 a b h = or_shl_step 64 a b (or_shl_6 a) h

pub or_shl_8 : (a b : ℕ) → b < 256 → bit_or (a * 256) b ≡ a * 256 + b
or_shl_8 a b h = or_shl_step 128 a b (or_shl_7 a) h

or_shl_9 : (a b : ℕ) → b < 512 → bit_or (a * 512) b ≡ a * 512 + b
or_shl_9 a b h = or_shl_step 256 a b (or_shl_8 a) h

or_shl_10 : (a b : ℕ) → b < 1024 → bit_or (a * 1024) b ≡ a * 1024 + b
or_shl_10 a b h = or_shl_step 512 a b (or_shl_9 a) h

pub or_shl_11 : (a b : ℕ) → b < 2048 → bit_or (a * 2048) b ≡ a * 2048 + b
or_shl_11 a b h = or_shl_step 1024 a b (or_shl_10 a) h

bit_and_double : (a m : ℕ) → bit_and a (m * 2) ≡ bit_and (a / 2) m * 2
bit_and_double a m =
    let e : m * 2 / 2 ≡ m = omega arith in
    let step : bit_and a (m * 2) ≡ bit_and (a / 2) m * 2 + min (a % 2) (m * 2 % 2) =
      rw e at (bit_and_step a (m * 2)) in
    omega arith

bit_and-0x18 : (a : ℕ) → bit_and a 0x18 ≡ a / 8 % 4 * 8
bit_and-0x18 a = omega (
  arith,
  bit_and_double a 12,
  bit_and_double (a / 2) 6,
  bit_and_double (a / 2 / 2) 3,
  bit_and-3 (a / 2 / 2 / 2),
)

pub bit_and-0xc0 : (a : ℕ) → bit_and a 0xc0 ≡ a / 64 % 4 * 64
bit_and-0xc0 a = omega (
  arith,
  bit_and_double a 96,
  bit_and_double (a / 2) 48,
  bit_and_double (a / 2 / 2) 24,
  bit_and-0x18 (a / 2 / 2 / 2),
)

bit_and-0x08 : (a : ℕ) → bit_and a 0x08 ≡ a / 8 % 2 * 8
bit_and-0x08 a = omega (
  arith,
  bit_and_double a 4,
  bit_and_double (a / 2) 2,
  bit_and_double (a / 2 / 2) 1,
  bit_and-1 (a / 2 / 2 / 2),
)

pub bit_and-0x80 : (a : ℕ) → bit_and a 0x80 ≡ a / 128 % 2 * 128
bit_and-0x80 a = omega (
  arith,
  bit_and_double a 64,
  bit_and_double (a / 2) 32,
  bit_and_double (a / 2 / 2) 16,
  bit_and_double (a / 2 / 2 / 2) 8,
  bit_and-0x08 (a / 2 / 2 / 2 / 2),
)

-- ===== src/Knxd/Address/Word.antt =====
-- Group addresses as 16-bit words.
use cometvisu_knxd_fcgi.Prelude.{ℕ, ◌+◌, ◌*◌, ◌/◌, ◌%◌, ◌^◌, ◌<◌, ◌≡◌, arith}
use cometvisu_knxd_fcgi.Prelude.Bits.{bit_and-0x07, bit_and-0x1f, bit_and-0xff, or_shl_8, or_shl_11}
use cometvisu_knxd_fcgi.Knxd.Address.{KnxGroupAddress, to_eibaddr, from_eibaddr, InRange}

to_eibaddr_sum :
    (g : KnxGroupAddress) → InRange g → to_eibaddr g ≡ g.main * 2048 + g.middle * 256 + g.sub
unfolding to_eibaddr
to_eibaddr_sum g r =
    let low : g.middle * 256 < 2048 = omega arith in
    let e : g.main * 2048 + g.middle * 256 ≡ (g.main * 8 + g.middle) * 256 = omega arith in
    rw (or_shl_11 g.main (g.middle * 256) low, e)
      (rw (or_shl_8 (g.main * 8 + g.middle) g.sub (omega arith)) (omega arith))

pub from_eibaddr-InRange : (n : ℕ) → InRange (from_eibaddr n)
unfolding from_eibaddr
from_eibaddr-InRange n = record {
  main = rw (bit_and-0x1f (n / 2048)) (omega arith);
  middle = rw (bit_and-0x07 (n / 256)) (omega arith);
  sub = rw (bit_and-0xff n) (omega arith);
}

-- A group address in range comes back from its 16-bit form.
pub from_eibaddr-to_eibaddr : (g : KnxGroupAddress) → InRange g → from_eibaddr (to_eibaddr g) ≡ g
unfolding from_eibaddr
from_eibaddr-to_eibaddr g r =
    let n = g.main * 2048 + g.middle * 256 + g.sub in
    let a : n / 2048 % 32 ≡ g.main = omega arith in
    let b : n / 256 % 8 ≡ g.middle = omega arith in
    let c : n % 256 ≡ g.sub = omega arith in
    rw
      (to_eibaddr_sum g r, bit_and-0x1f (n / 2048), bit_and-0x07 (n / 256), bit_and-0xff n, a, b, c)

-- Every 16-bit word comes back from the group address that it stands for, which is in range.
pub to_eibaddr-from_eibaddr :
    (n : ℕ) → n < 2 ^ 16 → (to_eibaddr (from_eibaddr n) ≡ n) × InRange (from_eibaddr n)
to_eibaddr-from_eibaddr n h =
    let r = from_eibaddr-InRange n in
    let e : to_eibaddr (from_eibaddr n) ≡ n = rw (to_eibaddr_sum (from_eibaddr n) r) (
      unfold from_eibaddr in
      rw (bit_and-0x1f (n / 2048), bit_and-0x07 (n / 256), bit_and-0xff n) (omega arith)) in
    (e, r)

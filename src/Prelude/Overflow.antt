-- ===== src/Prelude/Overflow.antt =====
-- The products of `int` in src/. An overflow of a signed number is undefined in C++; it is taken to wrap.
use cometvisu_knxd_fcgi.Prelude.Int.{ℤ, pos, negsuc}
use cometvisu_knxd_fcgi.Prelude.{ℕ, ◌-◌, ◌%◌, ◌^◌, ◌<◌, ◌≡◌, true, ltb, arith, if◌then◌else◌}

-- The `int` that has the lowest 32 bits of a number.
unfoldable pub wrap_int : ℕ → ℤ
wrap_int n = let w = n % 2 ^ 32 in if ltb w (2 ^ 31) then pos w else negsuc (2 ^ 32 - 1 - w)

pub wrap_int-small : (n : ℕ) → n < 2 ^ 31 → wrap_int n ≡ pos n
unfolding wrap_int
wrap_int-small n h =
    let whole : n % 2 ^ 32 ≡ n = omega arith in
    let test : ltb n (2 ^ 31) ≡ true = ground arith in rw (whole, test)

-- ===== src/State/Position.antt =====
-- The position arithmetic that src/state/group_cache.cpp and src/state/shared_group_cache.cpp share.
use cometvisu_knxd_fcgi.Prelude.{
  ℕ, ◌+◌, ◌-◌, ◌/◌, ◌%◌, ◌^◌, ◌≤◌, ◌<◌, ◌≡◌, Bool, true, false, ◌&&◌, not, arith, ltb, leb, ◌==◌,
  if◌then◌else◌, ◌≢◌, Bool-cases, inl, inr,
}
use cometvisu_knxd_fcgi.Prelude.Int.{ℤ, pos, negsuc}

-- `kPositionModulus`
abbrev pub modulus : ℕ
modulus = 100_000

abbrev pub u32 : ℕ
u32 = 2 ^ 32

-- The position that a push stores, from the counter before the push.
unfoldable pub wrapped_pos : ℕ → ℕ
wrapped_pos raw_pos = (raw_pos + 1) % u32 % modulus

-- `(to - from + kPositionModulus) % kPositionModulus` in `uint32_t`
unfoldable pub distance : ℕ → ℕ → ℕ
distance to from = (to + u32 - from + modulus) % u32 % modulus

unfoldable pub epoch_mismatch : ℕ → ℕ → Bool
epoch_mismatch position since_pos =
    not (since_pos == 0) && leb (modulus / 2) (distance position since_pos)

-- Whether the loop of `get_delta` reaches its end for an entry pushed at `pushed_at`.
unfoldable pub selects : ℕ → ℕ → ℕ → Bool
unfolding epoch_mismatch
selects position since_pos pushed_at =
    if epoch_mismatch position since_pos
    then true
    else if ltb (distance position since_pos) (distance pushed_at since_pos)
    then false
    else not (not (since_pos == 0) && distance pushed_at since_pos == 0)

-- `max_age_sec >= 0 && now - timestamp >= max_age_sec` in `uint32_t`
unfoldable pub too_old : ℕ → ℕ → ℤ → Bool
too_old now timestamp (pos max_age_sec) = leb max_age_sec ((now + u32 - timestamp) % u32)
too_old now timestamp (negsuc _) = false

distance_ahead : (a b : ℕ) → b ≤ a → a < b + modulus → distance (a % modulus) (b % modulus) ≡ a - b
unfolding distance
distance_ahead a b h k = omega arith

distance_behind :
    (a b : ℕ) → a < b → b < a + modulus → distance (a % modulus) (b % modulus) + b ≡ a + modulus
unfolding distance
distance_behind a b h k = omega arith

-- The client saw `p` pushes, the cache has had `n`, the entry came with push number `q`, all within
-- the last turn of the position: it is selected exactly if it is newer than what the client saw.
pub selects-newer :
    (n p q : ℕ)
    → p ≤ n
    → n < p + modulus / 2
    → p % modulus ≢ 0
    → q ≤ n
    → n < q + modulus
    → selects (n % modulus) (p % modulus) (q % modulus) ≡ ltb p q
unfolding selects
selects-newer n p q h₁ h₂ h₃ h₄ h₅ =
    let near = distance_ahead n p h₁ (omega arith) in
    elim (Bool-cases (ltb q p)) [
      | inl older ↦ let far = distance_behind q p (ground arith) (omega arith) in ground arith
      | inr newer ↦ let ahead = distance_ahead q p (ground arith) (omega arith) in ground arith
    ]

-- ===== src/State/SharedGroupCache/Probing.antt =====
-- The table of src/state/shared_group_cache.cpp keeps every address where probing finds it.
use native.Mathlib.Decide.{ℕ_discrete}
use cometvisu_knxd_fcgi.Prelude.{
  ℕ, zero, suc, ◌+◌, ◌%◌, ◌≤◌, ◌<◌, ◌≡◌, ◌≢◌, ◌⊎◌, inl, inr, refl, Bool, true, false, ◌||◌, List,
  arith, ◌==◌, length, set, length-set, get_or-set_self, get_or-set_ne, Bool-cases, sym, ◌∙◌,
}
use cometvisu_knxd_fcgi.State.SharedGroupCache.{SharedCacheEntry, empty_entry, at, probe}

-- Where the `i`-th round of the loop looks.
abbrev pub round_slot : List SharedCacheEntry → ℕ → ℕ → ℕ
round_slot es addr i = (addr % length es + i) % length es

pub probe-le :
    (es : List SharedCacheEntry) (a left i : ℕ) → 0 < length es → probe es a left i ≤ length es
unfolding probe
probe-le es a zero i h = omega arith
probe-le es a (suc left) i h = ground (arith, probe-le es a left (i + 1) h)

-- The loop stops at the address or at a free slot.
pub probe_stops :
    (es : List SharedCacheEntry) (a left i : ℕ)
    → probe es a left i < length es
    → ((at es (probe es a left i)).addr ≡ a) ⊎ ((at es (probe es a left i)).addr ≡ 0)
unfolding probe
probe_stops es a zero i h = absurd (omega arith)
probe_stops es a (suc left) i h =
    let s = round_slot es a i in
    elim (Bool-cases ((at es s).addr == a || (at es s).addr == 0)) [
      | inl stop ↦ rw stop (ground arith)
      | inr on ↦ rw on (probe_stops es a left (i + 1) (rw on at h))
    ]

-- Whether the loop stops at a slot.
abbrev pub hits : List SharedCacheEntry → ℕ → ℕ → Bool
hits es a s = (at es s).addr == a || (at es s).addr == 0

pub probe_hit :
    (es : List SharedCacheEntry) (a left i s : ℕ)
    → round_slot es a i ≡ s
    → hits es a s ≡ true
    → probe es a (suc left) i ≡ s
unfolding probe
probe_hit es a left i s e h = rw (e, h)

pub probe_miss :
    (es : List SharedCacheEntry) (a left i s : ℕ)
    → round_slot es a i ≡ s
    → hits es a s ≡ false
    → probe es a (suc left) i ≡ probe es a left (i + 1)
unfolding probe
probe_miss es a left i s e h = rw (e, h)

module _ (es : List SharedCacheEntry) (a slot : ℕ) (e : SharedCacheEntry)
    (l : slot < length es) where
  round_slot-set : (i : ℕ) → round_slot (set es slot e) a i ≡ round_slot es a i
  round_slot-set i = rw (length-set es slot e)

  hits-set_ne : (s : ℕ) → slot ≢ s → hits (set es slot e) a s ≡ hits es a s
  hits-set_ne s n = rw (get_or-set_ne es slot s e empty_entry n)

  hits-set_self : (s : ℕ) → slot ≡ s → hits (set es slot e) a s ≡ (e.addr == a || e.addr == 0)
  hits-set_self s n = rw (← n, get_or-set_self es slot e empty_entry l)

  -- A write at another slot than the one where the probing of `a` stopped does not change where it
  -- stops, if the new entry is for another address.
  pub probe-set_ne :
      (left i s : ℕ)
      → probe es a left i ≡ s
      → s < length es
      → s ≢ slot
      → e.addr ≢ a
      → e.addr ≢ 0
      → probe (set es slot e) a left i ≡ s
  probe-set_ne zero i s r h n p q = absurd (unfold probe in omega arith)
  probe-set_ne (suc left) i s r h n p q =
      let t = round_slot es a i in
      let here = round_slot-set i in
      let further = probe-set_ne left (i + 1) s in
      elim (ℕ_discrete slot t) [
        | yes same ↦ elim (Bool-cases (hits es a t)) [
          | inl stop ↦ absurd (n (sym r ∙ probe_hit es a left i t refl stop ∙ sym same))
          | inr on ↦
              probe_miss (set es slot e) a left i t here (hits-set_self t same ∙ ground arith)
              ∙ further (sym (probe_miss es a left i t refl on) ∙ r) h n p q
        ]
        | no other ↦ elim (Bool-cases (hits es a t)) [
          | inl stop ↦
              probe_hit (set es slot e) a left i t here (hits-set_ne t other ∙ stop)
              ∙ sym (probe_hit es a left i t refl stop)
              ∙ r
          | inr on ↦
              probe_miss (set es slot e) a left i t here (hits-set_ne t other ∙ on)
              ∙ further (sym (probe_miss es a left i t refl on) ∙ r) h n p q
        ]
      ]

  -- A write of an entry for `a` at the slot where its probing stopped leaves it to stop there.
  pub probe-set_self :
      (left i : ℕ) → probe es a left i ≡ slot → e.addr ≡ a → probe (set es slot e) a left i ≡ slot
  probe-set_self zero i r p = absurd (unfold probe in omega arith)
  probe-set_self (suc left) i r p =
      let t = round_slot es a i in
      let here = round_slot-set i in
      let further = probe-set_self left (i + 1) in
      elim (ℕ_discrete slot t) [
        | yes same ↦
            probe_hit (set es slot e) a left i t here (hits-set_self t same ∙ ground arith)
            ∙ sym same
        | no other ↦ elim (Bool-cases (hits es a t)) [
          | inl stop ↦ absurd (other (sym r ∙ probe_hit es a left i t refl stop))
          | inr on ↦
              probe_miss (set es slot e) a left i t here (hits-set_ne t other ∙ on)
              ∙ further (sym (probe_miss es a left i t refl on) ∙ r) p
        ]
      ]

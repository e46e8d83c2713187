-- ===== src/State/SharedGroupCache/Room.antt =====
-- While the table of src/state/shared_group_cache.cpp has a free slot, probing finds a slot.
use native.Mathlib.Nat.{mod-eq_of_lt, add-mod_right, mod-lt}
use cometvisu_knxd_fcgi.Prelude.{
  ℕ, zero, suc, ◌+◌, ◌-◌, ◌%◌, ◌≤◌, ◌<◌, ◌≡◌, ◌≢◌, refl, sym, ◌∙◌, false, List, [], ◌∷◌, arith, ltb,
  leb, ◌==◌, if◌then◌else◌, length, set, Bool-cases, replicate, inl, inr,
}
use cometvisu_knxd_fcgi.State.SharedGroupCache.{SharedCacheEntry, empty_entry, at, probe, find_slot}
use cometvisu_knxd_fcgi.State.SharedGroupCache.Probing.{
  round_slot, hits, probe-le, probe_miss, probe_hit,
}

-- How many slots hold an address.
abbrev pub occupied : List SharedCacheEntry → ℕ
occupied [] = 0
occupied (e ∷ es) = (if e.addr == 0 then 0 else 1) + occupied es

pub occupied-replicate : (n : ℕ) → occupied (replicate n empty_entry) ≡ 0
occupied-replicate zero = refl
occupied-replicate (suc n) = omega (arith, occupied-replicate n)

pub occupied-set :
    (es : List SharedCacheEntry) (s : ℕ) (e : SharedCacheEntry)
    → s < length es
    → e.addr ≢ 0
    → occupied (set es s e) ≡ (if (at es s).addr == 0 then occupied es + 1 else occupied es)
occupied-set [] s e h n = absurd (omega arith)
occupied-set (x ∷ es) zero e h n = ground arith
occupied-set (x ∷ es) (suc s) e h n = ground (arith, occupied-set es s e)

occupied_all :
    (es : List SharedCacheEntry)
    → ((s : ℕ) → s < length es → (at es s).addr ≢ 0)
    → occupied es ≡ length es
occupied_all [] h = refl
occupied_all (x ∷ es) h =
    ground (arith, h 0 (omega arith), occupied_all es (λ s l. h (suc s) (omega arith)))

probe_full :
    (es : List SharedCacheEntry) (a left i : ℕ)
    → 0 < length es
    → probe es a left i ≡ length es
    → (j : ℕ) → i ≤ j
    → j < i + left
    → hits es a (round_slot es a j) ≡ false
probe_full es a zero i p r j l h = absurd (omega arith)
probe_full es a (suc left) i p r j l h =
    let t = round_slot es a i in
    let further = probe_full es a left (i + 1) p in
    elim (Bool-cases (hits es a t)) [
      | inl stop ↦
          absurd (
            omega
              (arith, sym (probe_hit es a left i t refl stop) ∙ r, mod-lt (a % length es + i) p))
      | inr on ↦ elim (Bool-cases (i == j)) [
        | inl now ↦ let e : i ≡ j = ground arith in rw e at on
        | inr later ↦
            further (sym (probe_miss es a left i t refl on) ∙ r) j (ground arith) (omega arith)
      ]
    ]

-- The rounds of the loop reach every slot.
covers : (home s n : ℕ) → home < n → s < n → (j : ℕ) × (j < n) × ((home + j) % n ≡ s)
covers home s n h l = elim (Bool-cases (leb home s)) [
  | inl ahead ↦
      let le : home ≤ s = ground arith in
      let e : home + (s - home) ≡ s = omega arith in (s - home, omega arith, rw e (mod-eq_of_lt l))
  | inr behind ↦
      let lt : s < home = ground arith in
      let e : home + (s + n - home) ≡ s + n = omega arith in
      (s + n - home, omega arith, rw (e, add-mod_right) (mod-eq_of_lt l))
]

full_slots :
    (es : List SharedCacheEntry) (a : ℕ)
    → find_slot es a ≡ length es
    → (s : ℕ) → s < length es
    → (at es s).addr ≢ 0
unfolding find_slot
full_slots es a r s l =
    let p : 0 < length es = omega arith in
    let (j, in_time, there) = covers (a % length es) s (length es) (mod-lt a p) l in
    let missed = probe_full es a (length es) 0 p r j (omega arith) (omega arith) in
    let missed_s : hits es a s ≡ false = rw there at missed in ground arith

-- While not every slot holds an address, probing for any address ends at a slot of the table.
pub find_slot-lt :
    (es : List SharedCacheEntry) (a : ℕ) → occupied es < length es → find_slot es a < length es
find_slot-lt es a h = elim (Bool-cases (ltb (find_slot es a) (length es))) [
  | inl inside ↦ ground arith
  | inr outside ↦
      let le : find_slot es a ≤ length es =
        unfold find_slot in probe-le es a (length es) 0 (omega arith) in
      let e : find_slot es a ≡ length es = ground arith in
      absurd (omega (arith, occupied_all es (full_slots es a e)))
]

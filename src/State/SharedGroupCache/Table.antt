-- ===== src/State/SharedGroupCache/Table.antt =====
-- The table of src/state/shared_group_cache.cpp as a map from addresses to entries, and its free slots.
use native.Mathlib.Decide.{ℕ_discrete}
use cometvisu_knxd_fcgi.Prelude.{
  ℕ, ◌<◌, ◌≡◌, ◌≢◌, inl, inr, refl, sym, ◌∙◌, ap, true, false, some, List, arith, ltb, ◌==◌,
  if◌then◌else◌, length, set, length-set, get_or-set_self, get_or-set_ne, Option-cases,
}
use cometvisu_knxd_fcgi.State.SharedGroupCache.{
  SharedCacheEntry, empty_entry, at, find_slot, find_entry,
}
use cometvisu_knxd_fcgi.State.SharedGroupCache.Probing.{probe_stops, probe-set_ne, probe-set_self}

-- Every used slot is where the probing of its address stops.
pub record IsProbed (es : List SharedCacheEntry) : Type 0 where
  pub found : (s : ℕ) → s < length es → (at es s).addr ≢ 0 → find_slot es (at es s).addr ≡ s

find_entry-at :
    (es : List SharedCacheEntry) (b s : ℕ)
    → find_slot es b ≡ s
    → s < length es
    → (at es s).addr ≡ b
    → find_entry es b ≡ some (at es s)
unfolding find_entry
find_entry-at es b s e l h =
    rw e (let t : ltb s (length es) ≡ true = ground arith in rw (t, h) (ground arith))

-- What an entry that was found says of the table.
record Stands (es : List SharedCacheEntry) (b : ℕ) (x : SharedCacheEntry) : Type 0 where
  slot : ℕ
  stops : find_slot es b ≡ slot
  inside : slot < length es
  same : (at es slot).addr ≡ b
  entry : at es slot ≡ x

find_entry-Stands :
    (es : List SharedCacheEntry) (b : ℕ) (x : SharedCacheEntry)
    → find_entry es b ≡ some x
    → Stands es b x
unfolding find_entry
find_entry-Stands es b x h = record {
  slot = find_slot es b;
  stops = refl;
  inside = ground arith;
  same = ground arith;
  entry = ground arith;
}

-- What an entry that was found has for its address.
pub find_entry-addr :
    (es : List SharedCacheEntry) (b : ℕ) (x : SharedCacheEntry)
    → find_entry es b ≡ some x
    → (x.addr ≡ b) × ((s : ℕ) × (at es s ≡ x))
find_entry-addr es b x h =
    let t = find_entry-Stands es b x h in
    (sym (ap (λ (z : SharedCacheEntry). z.addr) t.entry) ∙ t.same, (t.slot, t.entry))

module _ (es : List SharedCacheEntry) (a : ℕ) (e : SharedCacheEntry)
    (room : find_slot es a < length es) (used : a ≢ 0) (own : e.addr ≡ a) where
  find_slot-set_self : find_slot (set es (find_slot es a) e) a ≡ (find_slot es a)
  unfolding find_slot
  find_slot-set_self =
      rw (length-set es (find_slot es a) e)
        (probe-set_self es a (find_slot es a) e room (length es) 0 refl own)

  at-set_self : at (set es (find_slot es a) e) (find_slot es a) ≡ e
  at-set_self = get_or-set_self es (find_slot es a) e empty_entry room

  at-set_ne : (s : ℕ) → (find_slot es a) ≢ s → at (set es (find_slot es a) e) s ≡ at es s
  at-set_ne s n = get_or-set_ne es (find_slot es a) s e empty_entry n

  -- The probing of another address that stops at an entry of that address stops there as before.
  find_slot-set_ne :
      (b s : ℕ)
      → find_slot es b ≡ s
      → s < length es
      → s ≢ (find_slot es a)
      → b ≢ a
      → find_slot (set es (find_slot es a) e) b ≡ s
  unfolding find_slot
  find_slot-set_ne b s r l n d = rw (length-set es (find_slot es a) e) (
      probe-set_ne es b (find_slot es a) e room (length es) 0 s r l n (λ q. d (sym q ∙ own))
        (λ q. used (sym own ∙ q)))

  -- The slot was free or held an entry of the same address.
  slot-free : (b : ℕ) → (at es (find_slot es a)).addr ≡ b → b ≢ 0 → b ≡ a
  unfolding find_slot
  slot-free b h n = elim (probe_stops es a (length es) 0 room) [
    | inl same ↦ sym h ∙ same
    | inr free ↦ absurd (n (sym h ∙ free))
  ]

  pub set-IsProbed : IsProbed es → IsProbed (set es (find_slot es a) e)
  set-IsProbed v = record {
    found = λ s l n. elim (ℕ_discrete (find_slot es a) s) [
      | yes here ↦
          let is_e : at (set es (find_slot es a) e) s ≡ e = rw (← here) at-set_self in
          ap (find_slot (set es (find_slot es a) e))
            (ap (λ (z : SharedCacheEntry). z.addr) is_e ∙ own)
          ∙ find_slot-set_self
          ∙ here
      | no there ↦
          let old = at-set_ne s there in
          let inside : s < length es = rw (length-set es (find_slot es a) e) at l in
          let stops = v.found s inside (rw old at n) in
          rw old (
            find_slot-set_ne (at es s).addr s stops inside (λ q. there (sym q))
              (λ q. there (ap (find_slot es) (sym q) ∙ stops)))
    ];
  }

  find_entry_other :
      (b : ℕ)
      → b ≢ 0
      → b ≢ a
      → IsProbed es
      → find_entry (set es (find_slot es a) e) b ≡ find_entry es b
  find_entry_other b n d v = elim (Option-cases (find_entry es b)) [
    | inr (x, old) ↦
        let t = find_entry-Stands es b x old in
        let apart : (find_slot es a) ≢ t.slot = λ q. d (slot-free b (rw (← q) at t.same) n) in
        let same = at-set_ne t.slot apart in
        find_entry-at (set es (find_slot es a) e) b t.slot
          (find_slot-set_ne b t.slot t.stops t.inside (λ q. apart (sym q)) d)
          (rw length-set t.inside) (rw same t.same)
        ∙ rw (same, old) (ap some t.entry)
    | inl old ↦ elim (Option-cases (find_entry (set es (find_slot es a) e) b)) [
      | inl none_too ↦ rw (old, none_too)
      | inr (x, new) ↦
          let t = find_entry-Stands (set es (find_slot es a) e) b x new in
          let written : (find_slot es a) ≡ t.slot → b ≡ a = λ q.
            let is_e : at (set es (find_slot es a) e) t.slot ≡ e = rw (← q) at-set_self in
            sym t.same ∙ ap (λ (z : SharedCacheEntry). z.addr) is_e ∙ own in
          let apart : (find_slot es a) ≢ t.slot = λ q. d (written q) in
          let same = at-set_ne t.slot apart in
          let inside : t.slot < length es = rw (length-set es (find_slot es a) e) at t.inside in
          let addr : (at es t.slot).addr ≡ b = rw same at t.same in
          let stops : find_slot es b ≡ t.slot =
            rw addr at (v.found t.slot inside (λ q. n (sym addr ∙ q))) in
          let found = find_entry-at es b t.slot stops inside addr in cc
    ]
  ]

  -- In a well-formed table, after an entry is written to the slot in the table that probing finds for its
  -- address, which is not 0, the address has the new entry, and every other address but 0 what it had.
  pub find_entry-set :
      (b : ℕ)
      → b ≢ 0
      → IsProbed es
      → find_entry (set es (find_slot es a) e) b ≡ (if a == b then some e else find_entry es b)
  find_entry-set b n v = elim (ℕ_discrete b a) [
    | no d ↦ let t : a == b ≡ false = ground arith in rw t (find_entry_other b n d v)
    | yes same ↦
        let t : a == b ≡ true = ground arith in
        rw (t, same)
          (find_entry-at (set es (find_slot es a) e) a (find_slot es a) find_slot-set_self
              (rw length-set (room)) (ap (λ (z : SharedCacheEntry). z.addr) at-set_self ∙ own)
            ∙ ap some at-set_self)
  ]

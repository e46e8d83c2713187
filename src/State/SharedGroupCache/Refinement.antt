-- ===== src/State/SharedGroupCache/Refinement.antt =====
-- The cache in shared memory behaves as the cache of one process of src/state/group_cache.cpp.
use mathlib.Core.Option
use Prim.Native.Nat.{min}
use cometvisu_knxd_fcgi.Prelude.{
  ℕ, ◌+◌, ◌-◌, ◌%◌, ◌≤◌, ◌<◌, ◌≡◌, ◌≢◌, refl, sym, ◌∙◌, ap, true, none, some, List, arith, Bytes,
  ltb, ◌==◌, if◌then◌else◌, length, All, Option-cases, Bool-cases, length-set, length-replicate,
  get_or-replicate, take-append, replicate, inl, take_all, set, inr,
}
use cometvisu_knxd_fcgi.Prelude.Int.{ℤ}
use cometvisu_knxd_fcgi.State.Position.{modulus, u32, wrapped_pos}
use cometvisu_knxd_fcgi.State.GroupCache
use cometvisu_knxd_fcgi.State.GroupCache.{GroupCache, Entry, Delta, collect}
use cometvisu_knxd_fcgi.State.GroupCache.History.{find-assign, collect_congr}
use cometvisu_knxd_fcgi.State.SharedGroupCache.{
  SharedCacheEntry, SharedCacheData, empty_entry, capacity, create, at, find_slot, find_entry,
  insert_locked, new_entry, push_locked, stored_value, get_locked, delta_value, get_delta_locked,
  max_value_bytes,
}
use cometvisu_knxd_fcgi.State.SharedGroupCache.Table.{
  IsProbed, set-IsProbed, find_entry-set, find_entry-addr,
}
use cometvisu_knxd_fcgi.State.SharedGroupCache.Room.{
  occupied, occupied-replicate, occupied-set, find_slot-lt,
}

-- An entry of the table without its address.
abbrev pub entry_of : SharedCacheEntry → Entry
entry_of e = record { value = stored_value e; timestamp = e.timestamp; pushed_at = e.pushed_at }

-- The table is well-formed, its counter is right, and for every address but 0 it holds what the
-- cache of one process holds, at the same position.
pub record Refines (d : SharedCacheData) (c : GroupCache) : Type 0 where
  pub size : length d.entries ≡ capacity
  pub probed : IsProbed d.entries
  pub counted : d.num_entries ≡ occupied d.entries
  pub same_position : d.position ≡ c.position
  pub agrees :
      (a : ℕ) → a ≢ 0 → Option.map entry_of (find_entry d.entries a) ≡ GroupCache.find a c.entries

find_entry-replicate : (n a : ℕ) → a ≢ 0 → find_entry (replicate n empty_entry) a ≡ none
find_entry-replicate n a h = elim (Option-cases (find_entry (replicate n empty_entry) a)) [
  | inl absent ↦ absent
  | inr (x, found) ↦
      let (addr, (s, same)) = find_entry-addr (replicate n empty_entry) a x found in
      let is_empty : empty_entry ≡ x = sym (get_or-replicate n s empty_entry) ∙ same in
      absurd (h (sym addr ∙ sym (ap (λ (z : SharedCacheEntry). z.addr) is_empty)))
]

pub replicate-IsProbed : (n : ℕ) → IsProbed (replicate n empty_entry)
replicate-IsProbed n = record {
  found = λ s l h.
      absurd (h (ap (λ (z : SharedCacheEntry). z.addr) (get_or-replicate n s empty_entry)));
}

-- The region that `create` leaves refines the empty cache.
pub create-Refines : Refines (create capacity) GroupCache.empty
unfolding create GroupCache.find
create-Refines = record {
  size = length-replicate capacity empty_entry;
  probed = replicate-IsProbed capacity;
  counted = sym (occupied-replicate capacity);
  same_position = refl;
  agrees = λ a n. rw (find_entry-replicate capacity a n);
}

stored-new_entry :
    (time addr raw : ℕ) (value : Bytes)
    → length value ≤ 14
    → stored_value (new_entry time addr value raw) ≡ value
unfolding new_entry
stored-new_entry time addr raw value h =
    let e : min (length value) 14 ≡ length value = omega arith in
    rw (e, take_all value, take-append value (replicate (14 - length value) 0))

entry_of-new_entry :
    (time addr raw : ℕ) (value : Bytes)
    → length value ≤ 14
    → entry_of (new_entry time addr value raw)
      ≡ record { value = value; timestamp = time % u32; pushed_at = wrapped_pos raw }
unfolding new_entry wrapped_pos
entry_of-new_entry time addr raw value h =
    ap
      (λ (v : Bytes).
        let e : Entry = record { value = v; timestamp = time % u32; pushed_at = wrapped_pos raw } in
        e)
      (stored-new_entry time addr raw value h)

-- What `push` writes while its address has a slot.
pub record Written (time a : ℕ) (value : Bytes) (d : SharedCacheData) : Type 0 where
  pub entries :
      (push_locked time a value d).entries
      ≡ set d.entries (find_slot d.entries a) (new_entry time a value d.position)
  pub num_entries : (push_locked time a value d).num_entries ≡ (
      if (at d.entries (find_slot d.entries a)).addr == 0
      then (d.num_entries + 1) % u32
      else d.num_entries)
  pub position : (push_locked time a value d).position ≡ (d.position + 1) % u32

pub push_locked-Written :
    (time a : ℕ) (value : Bytes) (d : SharedCacheData)
    → find_slot d.entries a < length d.entries
    → Written time a value d
unfolding push_locked insert_locked
push_locked-Written time a value d room =
    let t : ltb (find_slot d.entries a) (length d.entries) ≡ true = ground arith in
    record { entries = rw t; num_entries = rw t; position = rw t }

counted_set :
    (d : SharedCacheData) (a : ℕ) (e : SharedCacheEntry) {c : GroupCache}
    → Refines d c
    → a ≢ 0
    → e.addr ≡ a
    → find_slot d.entries a < length d.entries
    → d.num_entries < capacity
    → (if (at d.entries (find_slot d.entries a)).addr == 0
        then (d.num_entries + 1) % u32
        else d.num_entries)
      ≡ occupied (set d.entries (find_slot d.entries a) e)
counted_set d a e r n own room free =
    let used : e.addr ≢ 0 = λ q. n (sym own ∙ q) in
    let w : (d.num_entries + 1) % u32 ≡ d.num_entries + 1 = omega arith in
    rw (w, occupied-set d.entries (find_slot d.entries a) e room used, r.counted)

agrees_push :
    (time a b : ℕ) (value : Bytes) (d : SharedCacheData) (c : GroupCache)
    → Refines d c
    → b ≢ 0
    → length value ≤ max_value_bytes
    → Option.map entry_of
        (if a == b then some (new_entry time a value d.position) else find_entry d.entries b)
      ≡ GroupCache.find b (GroupCache.push time a value c).entries
unfolding GroupCache.push
agrees_push time a b value d c r h fits = rw find-assign (elim (Bool-cases (a == b)) [
  | inl same ↦
      unfold Option.map in
      rw (same, entry_of-new_entry time a d.position value fits, r.same_position)
  | inr other ↦ rw other (r.agrees b h)
])

-- While fewer than 2048 addresses are in the table, a push of up to 14 bytes for an address other than 0 keeps the
-- refinement: the table then stands for the cache of one process after the same push.
pub push_locked-Refines :
    (time a : ℕ) (value : Bytes) (d : SharedCacheData) (c : GroupCache)
    → Refines d c
    → a ≢ 0
    → length value ≤ max_value_bytes
    → d.num_entries < capacity
    → Refines (push_locked time a value d) (GroupCache.push time a value c)
push_locked-Refines time a value d c r n fits free =
    let room = find_slot-lt d.entries a (omega (arith, r.counted, r.size)) in
    let w = push_locked-Written time a value d room in
    let e = new_entry time a value d.position in
    let own : e.addr ≡ a = unfold new_entry in refl in
    let slot = find_slot d.entries a in
    record {
      size = rw w.entries (length-set d.entries slot e ∙ r.size);
      probed = rw w.entries (set-IsProbed d.entries a e room n own r.probed);
      counted = rw (w.num_entries, w.entries, counted_set d a e r n own room free);
      same_position = rw w.position (unfold GroupCache.push in rw r.same_position);
      agrees = λ b h.
          rw (w.entries, find_entry-set d.entries a e room n own b h r.probed)
            (agrees_push time a b value d c r h fits);
    }

-- While the table stands for the cache of one process, both answer `get` alike at any time, for every
-- address but 0.
pub get_locked-Refines :
    (time a : ℕ) (max_age_sec : ℤ) (d : SharedCacheData) (c : GroupCache)
    → Refines d c
    → a ≢ 0
    → get_locked time a max_age_sec d ≡ GroupCache.get time a max_age_sec c
unfolding get_locked GroupCache.get
get_locked-Refines time a m d c r n = elim (Option-cases (find_entry d.entries a)) [
  | inl absent ↦
      let e : GroupCache.find a c.entries ≡ none = rw absent at (sym (r.agrees a n)) in
      rw (absent, e, get_locked, GroupCache.get)
  | inr (x, found) ↦
      let e : GroupCache.find a c.entries ≡ some (entry_of x) = rw found at (sym (r.agrees a n)) in
      rw (found, e, get_locked, GroupCache.get)
]

delta_value-Refines :
    (time since_pos a : ℕ) (max_age_sec : ℤ) (d : SharedCacheData) (c : GroupCache)
    → Refines d c
    → a ≢ 0
    → delta_value time since_pos max_age_sec d a
      ≡ GroupCache.delta_value time since_pos max_age_sec c a
unfolding delta_value GroupCache.delta_value
delta_value-Refines time since_pos a m d c r n = elim (Option-cases (find_entry d.entries a)) [
  | inl absent ↦
      let e : GroupCache.find a c.entries ≡ none = rw absent at (sym (r.agrees a n)) in
      rw (absent, e, delta_value, GroupCache.delta_value)
  | inr (x, found) ↦
      let e : GroupCache.find a c.entries ≡ some (entry_of x) = rw found at (sym (r.agrees a n)) in
      rw (found, e, r.same_position, delta_value, GroupCache.delta_value)
]

-- While the table stands for the cache of one process, both give a client the same delta, if it does not
-- subscribe to address 0.
pub get_delta_locked-Refines :
    (time since_pos : ℕ) (subscribed : List ℕ) (max_age_sec : ℤ) (d : SharedCacheData)
    (c : GroupCache)
    → Refines d c
    → All (λ a. a ≢ 0) subscribed
    → get_delta_locked time since_pos subscribed max_age_sec d
      ≡ GroupCache.get_delta time since_pos subscribed max_age_sec c
unfolding get_delta_locked GroupCache.get_delta
get_delta_locked-Refines time since_pos subscribed m d c r n =
    rw
      (collect_congr (delta_value time since_pos m d) (GroupCache.delta_value time since_pos m c)
        (λ a. a ≢ 0) subscribed (λ a. delta_value-Refines time since_pos a m d c r) n)
      (ap
        (λ (q : ℕ).
          let e : Delta = record {
            values = collect (GroupCache.delta_value time since_pos m c) subscribed;
            position = q % modulus;
          } in
          e)
        r.same_position)

-- ===== src/State/SharedGroupCache.antt =====
-- src/state/shared_group_cache.{h,cpp}: the cache in shared memory, a table with open addressing. The
-- result of pthread_mutex_lock and the clock are arguments; every operation runs under the mutex,
-- so it is one step on the region.
pub mod Probing
pub mod Table
pub mod Room
pub mod Refinement
pub mod Waiting
use Prim.Native.Nat.{min}
use cometvisu_knxd_fcgi.Prelude.{
  ℕ, zero, suc, ◌+◌, ◌-◌, ◌%◌, Bool, true, false, ◌||◌, Option, none, some, List, [], ◌∷◌, ◌++◌,
  Bytes, ltb, ◌==◌, if◌then◌else◌, length, get_or, set, take, replicate,
}
use cometvisu_knxd_fcgi.Prelude.Int.{ℤ}
use cometvisu_knxd_fcgi.State.Position.{modulus, u32, wrapped_pos, selects, too_old}
use cometvisu_knxd_fcgi.State.GroupCache.{Delta, collect}

-- `kSharedCacheCapacity`
abbrev pub capacity : ℕ
capacity = 2048

-- `kMaxSharedValueBytes`
abbrev pub max_value_bytes : ℕ
max_value_bytes = 14

pub record SharedCacheEntry : Type 0 where
  pub addr : ℕ
  pub value_len : ℕ
  pub timestamp : ℕ
  pub pushed_at : ℕ
  pub value : Bytes

abbrev pub empty_entry : SharedCacheEntry
empty_entry = record {
  addr = 0;
  value_len = 0;
  timestamp = 0;
  pushed_at = 0;
  value = replicate max_value_bytes 0;
}

pub record SharedCacheData : Type 0 where
  pub position : ℕ
  pub generation : ℕ
  pub num_entries : ℕ
  pub entries : List SharedCacheEntry

-- The region that `create` leaves in fresh memory, with a table of the given size.
unfoldable pub create : ℕ → SharedCacheData
create size = record {
  position = 0;
  generation = 0;
  num_entries = 0;
  entries = replicate size empty_entry;
}

-- `data_->entries[slot]`
abbrev pub at : List SharedCacheEntry → ℕ → SharedCacheEntry
at entries slot = get_or entries slot empty_entry

-- The loop of `find_slot` with the rounds left and the round's number; the size of the table is
-- `kSharedCacheCapacity`.
unfoldable pub probe : List SharedCacheEntry → ℕ → ℕ → ℕ → ℕ
probe entries addr zero i = length entries
probe entries addr (suc left) i =
    let slot = (addr % length entries + i) % length entries in
    let next = probe entries addr left (i + 1) in
    if (at entries slot).addr == addr || (at entries slot).addr == 0 then slot else next

unfoldable pub find_slot : List SharedCacheEntry → ℕ → ℕ
find_slot entries addr = probe entries addr (length entries) 0

unfoldable pub insert_locked : ℕ → SharedCacheEntry → SharedCacheData → SharedCacheData
insert_locked addr entry d =
    let slot = find_slot d.entries addr in
    let is_new = (at d.entries slot).addr == 0 in
    if ltb slot (length d.entries)
    then record d {
      entries = set d.entries slot entry;
      num_entries = if is_new then (d.num_entries + 1) % u32 else d.num_entries;
    }
    else d

-- The result of `pthread_mutex_lock`: 0, EOWNERDEAD, or another error.
pub data LockResult : Type 0 where
  acquired owner_dead failed : LockResult

abbrev pub holds_lock : LockResult → Bool
holds_lock acquired = true
holds_lock owner_dead = true
holds_lock failed = false

-- The entry that `push` writes.
unfoldable pub new_entry : ℕ → ℕ → Bytes → ℕ → SharedCacheEntry
new_entry time addr value raw_pos =
    let len = min (length value) max_value_bytes in
    record {
      addr = addr;
      value_len = len;
      timestamp = time % u32;
      pushed_at = wrapped_pos raw_pos;
      value = take len value ++ replicate (max_value_bytes - len) 0;
    }

-- `push` behind the lock.
unfoldable pub push_locked : ℕ → ℕ → Bytes → SharedCacheData → SharedCacheData
push_locked time addr value d =
    let counted = record d { position = (d.position + 1) % u32 } in
    let inserted = insert_locked addr (new_entry time addr value d.position) counted in
    record inserted { generation = (inserted.generation + 1) % u32 }

-- `none` is a null `data_`.
unfoldable pub push : LockResult → ℕ → ℕ → Bytes → Option SharedCacheData → Option SharedCacheData
push lock time addr value none = none
push lock time addr value (some d) =
    if holds_lock lock then some (push_locked time addr value d) else some d

-- The first `value_len` bytes.
abbrev pub stored_value : SharedCacheEntry → Bytes
stored_value e = take e.value_len e.value

-- `slot < kSharedCacheCapacity && entries[slot].addr == addr`
unfoldable pub find_entry : List SharedCacheEntry → ℕ → Option SharedCacheEntry
find_entry entries addr =
    let slot = find_slot entries addr in
    if ltb slot (length entries)
    then if (at entries slot).addr == addr then some (at entries slot) else none
    else none

unfoldable pub get_locked : ℕ → ℕ → ℤ → SharedCacheData → Option Bytes
get_locked time addr max_age_sec d = elim (find_entry d.entries addr) [
  | none ↦ none
  | some e ↦ if too_old (time % u32) e.timestamp max_age_sec then none else some (stored_value e)
]

unfoldable pub get : LockResult → ℕ → ℕ → ℤ → Option SharedCacheData → Option Bytes
get lock time addr max_age_sec none = none
get lock time addr max_age_sec (some d) =
    if holds_lock lock then get_locked time addr max_age_sec d else none

-- One round of the loop of `get_delta`.
unfoldable pub delta_value : ℕ → ℕ → ℤ → SharedCacheData → ℕ → Option Bytes
delta_value time since_pos max_age_sec d addr = elim (find_entry d.entries addr) [
  | none ↦ none
  | some e ↦
      if too_old (time % u32) e.timestamp max_age_sec
      then none
      else if selects (d.position % modulus) since_pos e.pushed_at
      then some (stored_value e)
      else none
]

unfoldable pub get_delta_locked : ℕ → ℕ → List ℕ → ℤ → SharedCacheData → Delta
get_delta_locked time since_pos subscribed max_age_sec d = record {
  values = collect (delta_value time since_pos max_age_sec d) subscribed;
  position = d.position % modulus;
}

abbrev pub empty_delta : Delta
empty_delta = record { values = []; position = 0 }

unfoldable pub get_delta : LockResult → ℕ → ℕ → List ℕ → ℤ → Option SharedCacheData → Delta
get_delta lock time since_pos subscribed max_age_sec none = empty_delta
get_delta lock time since_pos subscribed max_age_sec (some d) =
    if holds_lock lock
    then get_delta_locked time since_pos subscribed max_age_sec d
    else empty_delta

-- `position()`
unfoldable pub current_position : SharedCacheData → ℕ
current_position d = d.position % modulus

-- ===== src/Knxd/CacheReader.antt =====
-- `drain_telegrams` of src/knxd/cache_reader.cpp. The telegrams that `poll_group_telegram` returns before
-- it returns false are an argument, each with the clock and the result of taking the lock.
pub mod Drain
pub mod Delivery
pub mod Running
use cometvisu_knxd_fcgi.Knxd.Apdu.{ApduType, parse_apdu}
use cometvisu_knxd_fcgi.State.SharedGroupCache
use cometvisu_knxd_fcgi.State.SharedGroupCache.{SharedCacheData, LockResult}
use cometvisu_knxd_fcgi.Prelude.{
  ℕ, ◌+◌, Bool, true, false, Option, none, some, List, [], ◌∷◌, Bytes, if◌then◌else◌,
}

pub record Arrival : Type 0 where
  pub time : ℕ
  pub lock : LockResult
  pub addr : ℕ
  pub apdu : Bytes

-- `pushed` and the region.
pub record Drained : Type 0 where
  pub pushed : ℕ
  pub data_ : Option SharedCacheData

abbrev pub is_read : ApduType → Bool
is_read ApduType.read = true
is_read _ = false

-- `cache.push(addr, value_data)` and `++pushed`
unfoldable pub push_arrival : Arrival → Bytes → Drained → Drained
push_arrival t value s = record {
  pushed = s.pushed + 1;
  data_ = SharedGroupCache.push t.lock t.time t.addr value s.data_;
}

-- One round of the loop.
unfoldable pub drain_telegram : Arrival → Drained → Drained
drain_telegram t s = elim (parse_apdu t.apdu) [
  | none ↦ s
  | some (type, value) ↦ if is_read type then s else push_arrival t value s
]

-- The loop, with what it has done so far.
unfoldable pub drain_loop : List Arrival → Drained → Drained
drain_loop [] s = s
drain_loop (t ∷ ts) s = drain_loop ts (drain_telegram t s)

unfoldable pub drain_telegrams : List Arrival → Option SharedCacheData → Drained
drain_telegrams ts data_ = drain_loop ts (record { pushed = 0; data_ = data_ })

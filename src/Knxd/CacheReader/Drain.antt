-- ===== src/Knxd/CacheReader/Drain.antt =====
-- What the cache holds after src/knxd/cache_reader.cpp has drained telegrams into it.
use cometvisu_knxd_fcgi.Knxd.Apdu.{ApduType, apdu_type, apdu_value, apdu_data, parse_apdu}
use cometvisu_knxd_fcgi.Knxd.CacheReader.{
  Arrival, Drained, is_read, drain_telegram, push_arrival, drain_loop, drain_telegrams,
}
use cometvisu_knxd_fcgi.State.GroupCache.History.{Telegram, cache_of}
use cometvisu_knxd_fcgi.State.SharedGroupCache
use cometvisu_knxd_fcgi.State.SharedGroupCache.{
  SharedCacheData, LockResult, capacity, holds_lock, find_slot,
}
use cometvisu_knxd_fcgi.State.SharedGroupCache.Refinement.{
  Refines, push_locked-Written, push_locked-Refines,
}
use cometvisu_knxd_fcgi.Prelude.{
  ℕ, suc, ◌+◌, ◌≤◌, ◌≡◌, ◌≢◌, inl, inr, true, Option, none, some, List, [], ◌∷◌, arith, Bytes,
  if◌then◌else◌, length, Option-cases, length-drop, ◌<◌, refl, ltb, All, Bool-cases, get_or,
}
use cometvisu_knxd_fcgi.State.SharedGroupCache.Room.{find_slot-lt}

-- The value that a telegram brings, if it is one that does.
abbrev pub arrived_value : Option (ApduType × Bytes) → Option Bytes
arrived_value none = none
arrived_value (some (type, value)) = if is_read type then none else some value

abbrev pub recorded_value : Arrival → Option Bytes → List Telegram → List Telegram
recorded_value t none h = h
recorded_value t (some value) h = record { time = t.time; addr = t.addr; value = value } ∷ h

-- The telegrams with a value, newest first, on top of older ones.
abbrev pub recorded : List Arrival → List Telegram → List Telegram
recorded [] h = h
recorded (t ∷ ts) h = recorded ts (recorded_value t (arrived_value (parse_apdu t.apdu)) h)

-- A telegram that the cache can take: not for the address 0, with a value that fits, and the lock
-- can be had.
pub record Fits (t : Arrival) : Type 0 where
  pub named : t.addr ≢ 0
  pub short : length t.apdu ≤ 16
  pub locked : holds_lock t.lock ≡ true

length-apdu_value : (apdu : Bytes) → length apdu ≤ 16 → length (apdu_value apdu) ≤ 14
unfolding apdu_value
length-apdu_value apdu h = ground (arith, length-drop 2 apdu)

length-apdu_data :
    (type : ApduType) (apdu : Bytes) → length apdu ≤ 16 → length (apdu_data type apdu) ≤ 14
unfolding apdu_data
length-apdu_data ApduType.read apdu h = omega arith
length-apdu_data ApduType.response apdu h = length-apdu_value apdu h
length-apdu_data ApduType.write apdu h = length-apdu_value apdu h
length-apdu_data ApduType.unnamed apdu h = omega arith

absurd_none : {P : Type 0} (value : Bytes) → none ≡ some value → P
absurd_none value e = absurd cc

length-arrived_value :
    (apdu value : Bytes)
    → length apdu ≤ 16
    → arrived_value (parse_apdu apdu) ≡ some value
    → length value ≤ 14
unfolding parse_apdu
length-arrived_value apdu value h e = elim (Bool-cases (ltb (length apdu) 2)) [
  | inl short ↦ absurd_none value (rw short at e)
  | inr enough ↦
      let type = apdu_type (get_or apdu 1 0) in
      let e2 : (if is_read type then none else some (apdu_data type apdu)) ≡ some value =
        rw enough at e in
      elim (Bool-cases (is_read type)) [
        | inl asks ↦ absurd_none value (rw asks at e2)
        | inr brings ↦
            let e3 : some (apdu_data type apdu) ≡ some value = rw brings at e2 in
            let e4 : apdu_data type apdu ≡ value = cc in rw (← e4) (length-apdu_data type apdu h)
      ]
]

-- The table holds what the telegrams so far brought, and the count is right.
pub record Holds (s : Drained) (h : List Telegram) (started : ℕ) : Type 0 where
  pub region : SharedCacheData
  pub same : s.data_ ≡ some region
  pub refines : Refines region (cache_of h)
  pub counted : length h ≡ started + s.pushed

-- One round pushes the value, if there is one.
abbrev drain_by_value : Arrival → Option Bytes → Drained → Drained
drain_by_value t none s = s
drain_by_value t (some value) s = push_arrival t value s

drain_telegram-by_value :
    (t : Arrival) (s : Drained)
    → drain_telegram t s ≡ drain_by_value t (arrived_value (parse_apdu t.apdu)) s
unfolding drain_telegram
drain_telegram-by_value t s = elim (Option-cases (parse_apdu t.apdu)) [
  | inl absent ↦ rw (drain_telegram, absent)
  | inr ((type, value), found) ↦ elim (Bool-cases (is_read type)) [
    | inl asks ↦ rw (drain_telegram, found, asks)
    | inr brings ↦ rw (drain_telegram, found, brings)
  ]
]

push-held :
    (lock : LockResult) (time a : ℕ) (value : Bytes) (d : SharedCacheData)
    → holds_lock lock ≡ true
    → SharedGroupCache.push lock time a value (some d)
      ≡ some (SharedGroupCache.push_locked time a value d)
unfolding SharedGroupCache.push
push-held lock time a value d h = rw h

-- Room for the telegrams to come.
abbrev HoldsRoom : Drained → List Telegram → ℕ → ℕ → Type 0
HoldsRoom s h started n = (w : Holds s h started) × (w.region.num_entries + n ≤ capacity)

push_arrival-Holds :
    (t : Arrival) (s : Drained) (h : List Telegram) (started n : ℕ) (value : Bytes)
    → HoldsRoom s h started (suc n)
    → Fits t
    → length value ≤ 14
    → HoldsRoom
        (push_arrival t value s)
        (record { time = t.time; addr = t.addr; value = value } ∷ h)
        started
        n
unfolding push_arrival
push_arrival-Holds t s h started n value (w, room) fits short =
    let d = w.region in
    let free : d.num_entries < capacity = omega arith in
    let slot = find_slot-lt d.entries t.addr (omega (arith, w.refines.counted, w.refines.size)) in
    let written = push_locked-Written t.time t.addr value d slot in
    let v : Holds (push_arrival t value s)
        (record { time = t.time; addr = t.addr; value = value } ∷ h) started =
      record {
        region = SharedGroupCache.push_locked t.time t.addr value d;
        same = rw w.same (push-held t.lock t.time t.addr value d fits.locked);
        refines =
            push_locked-Refines t.time t.addr value d (cache_of h) w.refines fits.named short free;
        counted = omega (arith, w.counted);
      } in
    (v, ground (arith, written.num_entries))

drain_telegram-Holds :
    (t : Arrival) (s : Drained) (h : List Telegram) (started n : ℕ)
    → HoldsRoom s h started (suc n)
    → Fits t
    → HoldsRoom
        (drain_telegram t s)
        (recorded_value t (arrived_value (parse_apdu t.apdu)) h)
        started
        n
drain_telegram-Holds t s h started n (w, room) fits =
    rw (drain_telegram-by_value t s) (elim (Option-cases (arrived_value (parse_apdu t.apdu))) [
      | inl nothing ↦ rw (nothing, drain_by_value, recorded_value) (w, omega arith)
      | inr (value, brought) ↦
          rw (brought, drain_by_value, recorded_value)
            (push_arrival-Holds t s h started n value (w, room) fits
              (length-arrived_value t.apdu value fits.short brought))
    ])

drain_loop-Holds :
    (ts : List Arrival) (s : Drained) (h : List Telegram) (started : ℕ)
    → HoldsRoom s h started (length ts)
    → All Fits ts
    → Holds (drain_loop ts s) (recorded ts h) started
unfolding drain_loop
drain_loop-Holds [] s h started (w, room) fits = w
drain_loop-Holds (t ∷ ts) s h started w (fit, fits) =
    drain_loop-Holds ts (drain_telegram t s)
      (recorded_value t (arrived_value (parse_apdu t.apdu)) h) started
      (drain_telegram-Holds t s h started (length ts) w fit) fits

-- The table stands for the cache of one process that got the telegrams with a value in the order of
-- their arrival, and the count is their number. This holds if every telegram is for an address other
-- than 0, has at most 16 bytes and gets the lock, and if the table has a free slot for each.
pub drain_telegrams-Holds :
    (ts : List Arrival) (d : SharedCacheData) (h : List Telegram)
    → Refines d (cache_of h)
    → All Fits ts
    → d.num_entries + length ts ≤ capacity
    → Holds (drain_telegrams ts (some d)) (recorded ts h) (length h)
unfolding drain_telegrams
drain_telegrams-Holds ts d h r fits room =
    let w : Holds (record { pushed = 0; data_ = some d }) h (length h) = record {
      region = d;
      same = refl;
      refines = r;
      counted = omega arith;
    } in
    drain_loop-Holds ts (record { pushed = 0; data_ = some d }) h (length h) (w, room) fits

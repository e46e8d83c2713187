-- ===== src/Knxd/CacheReader/Delivery.antt =====
-- From the bus to the client: what a client gets from the table of src/state/shared_group_cache.cpp after
-- src/knxd/cache_reader.cpp has filled it.
use cometvisu_knxd_fcgi.Prelude.Int.{negsuc}
use cometvisu_knxd_fcgi.Knxd.Apdu.{parse_apdu}
use cometvisu_knxd_fcgi.Knxd.CacheReader.{Arrival, drain_telegrams}
use cometvisu_knxd_fcgi.State.GroupCache.{Delta, collect}
use cometvisu_knxd_fcgi.State.GroupCache.History.{
  Telegram, IsRecent, new_value, IsCurrent, cache_of, get_delta-new_values,
}
use cometvisu_knxd_fcgi.State.SharedGroupCache.{SharedCacheData, capacity, create, get_delta_locked}
use cometvisu_knxd_fcgi.Prelude.{
  ℕ, ◌+◌, ◌%◌, ◌≤◌, ◌<◌, ◌≡◌, ◌≢◌, refl, ap, ◌∙◌, Option, none, some, List, [], ◌∷◌, arith, Bytes,
  length, All, All-every,
}
use cometvisu_knxd_fcgi.Knxd.CacheReader.Drain.{
  recorded_value, recorded, Fits, arrived_value, drain_telegrams-Holds,
}
use cometvisu_knxd_fcgi.State.SharedGroupCache.Refinement.{create-Refines, get_delta_locked-Refines}
use cometvisu_knxd_fcgi.State.Position.{modulus}

length-recorded_value :
    (t : Arrival) (v : Option Bytes) (h : List Telegram)
    → length (recorded_value t v h) ≤ length h + 1
length-recorded_value t none h = omega arith
length-recorded_value t (some v) h = omega arith

length-recorded :
    (ts : List Arrival) (h : List Telegram) → length (recorded ts h) ≤ length h + length ts
length-recorded [] h = omega arith
length-recorded (t ∷ ts) h =
    let v = arrived_value (parse_apdu t.apdu) in
    omega (arith, length-recorded ts (recorded_value t v h), length-recorded_value t v h)

-- What a client gets in one poll.
pub record Delivers (ts : List Arrival) (p : ℕ) (delta : Delta) (subscribed : List ℕ) : Type 0 where
  pub values : delta.values ≡ collect (new_value p (recorded ts [])) subscribed
  pub position : delta.position ≡ length (recorded ts [])

-- The cache reader drains up to 2048 telegrams into the region that `create` leaves. A client that
-- polls with the position after the first `p` of those with a value, and with no age filter, gets
-- exactly those of its subscribed addresses that have a later value, each with its last one, and
-- the number of telegrams with a value as its next position. Telegrams have at most 16 bytes, get
-- the lock, and are not for the address 0; the client does not subscribe to 0 and `p` is not 0.
pub drain_telegrams-Delivers :
    (ts : List Arrival) (time p k : ℕ) (subscribed : List ℕ)
    → All Fits ts
    → length ts ≤ capacity
    → 0 < p
    → p ≤ length (recorded ts [])
    → All (λ a. a ≢ 0) subscribed
    → (d : SharedCacheData) × ((drain_telegrams ts (some (create capacity))).data_ ≡ some d)
      × Delivers ts p (get_delta_locked time p subscribed (negsuc k) d) subscribed
drain_telegrams-Delivers ts time p k subscribed fits room started seen named =
    let h = recorded ts [] in
    let few : length h ≤ capacity = omega (arith, length-recorded ts []) in
    let fresh : (create capacity).num_entries ≡ 0 = unfold create in refl in
    let w =
      drain_telegrams-Holds ts (create capacity) [] create-Refines fits (omega (arith, fresh)) in
    let small : p % modulus ≡ p = omega arith in
    let current : IsCurrent h p = record {
      counted = omega arith;
      seen = seen;
      near = omega arith;
      started = omega arith;
    } in
    let recent : All (IsRecent h) subscribed =
      All-every (IsRecent h) (λ a q t e. omega arith) subscribed in
    let e : get_delta_locked time p subscribed (negsuc k) w.region
        ≡ record { values = collect (new_value p h) subscribed; position = length h % modulus } =
      get_delta_locked-Refines time p subscribed (negsuc k) w.region (cache_of h) w.refines named
      ∙ rw small at (get_delta-new_values time p k h subscribed current recent) in
    let delivered : Delivers ts p (get_delta_locked time p subscribed (negsuc k) w.region)
        subscribed =
      record {
        values = ap (λ (z : Delta). z.values) e;
        position = ap (λ (z : Delta). z.position) e ∙ omega arith;
      } in
    (w.region, w.same, delivered)

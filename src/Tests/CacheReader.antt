-- ===== src/Tests/CacheReader.antt =====
-- The theorems on src/knxd/cache_reader.cpp and on `parse_apdu` at concrete inputs.
use cometvisu_knxd_fcgi.Prelude.Int.{negsuc}
use cometvisu_knxd_fcgi.Knxd.Apdu.{parse_apdu, apdu_type, apdu_data, apdu_value}
use cometvisu_knxd_fcgi.Knxd.CacheReader.{Arrival, drain_telegrams}
use cometvisu_knxd_fcgi.Knxd.CacheReader.Drain.{Holds, Fits, recorded, drain_telegrams-Holds}
use cometvisu_knxd_fcgi.State.SharedGroupCache.{
  SharedCacheData, LockResult, capacity, create, get_delta_locked,
}
use cometvisu_knxd_fcgi.Prelude.{◌+◌, ◌≤◌, ◌≡◌, refl, some, List, [], ◌∷◌, arith, length, All}
use cometvisu_knxd_fcgi.Knxd.CacheReader.Delivery.{Delivers, drain_telegrams-Delivers}
use cometvisu_knxd_fcgi.State.SharedGroupCache.Refinement.{create-Refines}

abbrev arrivals : List Arrival
arrivals =
    record { time = 1; lock = LockResult.acquired; addr = 0x0a03; apdu = 0 ∷ 0x81 ∷ [] }
    ∷ record { time = 2; lock = LockResult.owner_dead; addr = 0x0a04; apdu = 0 ∷ 0 ∷ [] }
    ∷ record { time = 3; lock = LockResult.acquired; addr = 0x0a03; apdu = 0 ∷ 0x80 ∷ 7 ∷ [] }
    ∷ []

arrivals-Fits : All Fits arrivals
arrivals-Fits = (
  record { named = omega arith; short = omega arith; locked = refl },
  (
    record { named = omega arith; short = omega arith; locked = refl },
    (record { named = omega arith; short = omega arith; locked = refl }, tt),
  ),
)

fresh : (create capacity).num_entries + 3 ≤ capacity
unfolding create
fresh = omega arith

drain_telegrams-Holds_example :
    Holds (drain_telegrams arrivals (some (create capacity))) (recorded arrivals []) 0
drain_telegrams-Holds_example =
    drain_telegrams-Holds arrivals (create capacity) [] create-Refines arrivals-Fits fresh

two_recorded : length (recorded arrivals []) ≡ 2
unfolding parse_apdu apdu_type apdu_data apdu_value
two_recorded = refl

drain_telegrams-Delivers_example :
    (d : SharedCacheData) × ((drain_telegrams arrivals (some (create capacity))).data_ ≡ some d)
    × Delivers arrivals 1 (get_delta_locked 9 1 (0x0a03 ∷ []) (negsuc 0) d) (0x0a03 ∷ [])
drain_telegrams-Delivers_example =
    drain_telegrams-Delivers arrivals 9 1 0 (0x0a03 ∷ []) arrivals-Fits (omega arith) (omega arith)
      (omega (arith, two_recorded)) ((λ q. absurd (omega arith)), tt)

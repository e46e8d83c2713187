-- ===== src/Knxd/CacheReader/Running.antt =====
-- `run_cache_reader` and `sleep_interruptible` of src/knxd/cache_reader.cpp. Loops take fuel; `none` means
-- that it ran out.
pub mod Backoff
pub mod Rest
use cometvisu_knxd_fcgi.Prelude.Int.{ℤ, pos, negsuc}
use cometvisu_knxd_fcgi.Prelude.Overflow.{wrap_int}
use cometvisu_knxd_fcgi.Knxd.Client.Connection.{WaitResult}
use cometvisu_knxd_fcgi.Knxd.Client.Interface.{KnxdClientInterface}
use cometvisu_knxd_fcgi.Knxd.CacheReader.{Arrival, drain_telegrams}
use cometvisu_knxd_fcgi.State.SharedGroupCache.{SharedCacheData, LockResult}
use cometvisu_knxd_fcgi.Prelude.{
  ℕ, zero, suc, ◌-◌, ◌*◌, ◌^◌, min, Bool, true, false, ◌||◌, not, Option, none, some, List, [], ◌∷◌,
  Bytes, ltb, leb, if◌then◌else◌, max,
}

pub record CacheReaderOptions : Type 0 where
  pub socket_path : Bytes
  pub wait_timeout_ms : ℤ
  pub reconnect_backoff_ms : ℤ
  pub max_reconnect_backoff_ms : ℤ
  pub sleep_slice_ms : ℤ

-- `std::max(n, z)`
abbrev pub at_least : ℕ → ℤ → ℕ
at_least n (pos m) = max n m
at_least n (negsuc _) = n

unfoldable pub initial_backoff : CacheReaderOptions → ℕ
initial_backoff o = at_least 1 o.reconnect_backoff_ms

unfoldable pub max_backoff : CacheReaderOptions → ℕ
max_backoff o = at_least (initial_backoff o) o.max_reconnect_backoff_ms

-- `std::min(z, n)`
unfoldable pub capped : ℕ → ℤ → ℤ
capped n (pos m) = pos (min m n)
capped n (negsuc m) = negsuc m

-- The product of `int` with 2, which for -(n + 1) is that of 2 ^ 32 - (n + 1).
unfoldable pub twice : ℤ → ℤ
twice (pos n) = wrap_int (n * 2)
twice (negsuc n) = wrap_int ((2 ^ 32 - suc n) * 2)

-- What the loop calls beside the client: `should_stop`, `nanosleep` and the steady clock, in milliseconds,
-- and the clock and the lock that a push finds.
pub record SystemCalls (K : Type 0) : Type 0 where
  pub should_stop : K → Bool × K
  pub nanosleep : ℕ → K → K
  pub now : K → ℕ × K
  pub stamp : K → (ℕ × LockResult) × K

-- The variables of `run_cache_reader`, the client, and the cache.
pub record Reader (K : Type 0) : Type 0 where
  pub knxd : K
  pub cache : Option SharedCacheData
  pub backoff_ms : ℤ
  pub connected : Bool
  pub logged_failure : Bool
  pub last_log : ℕ

-- `kRetryLogIntervalMs`
abbrev pub retry_log_interval : ℕ
retry_log_interval = 30000

abbrev pub start_reader : {K : Type 0} → CacheReaderOptions → K → Option SharedCacheData → Reader K
start_reader o k cache = record {
  knxd = k;
  cache = cache;
  backoff_ms = pos (initial_backoff o);
  connected = false;
  logged_failure = false;
  last_log = 0;
}

module _ {K : Type 0} (client : KnxdClientInterface K) (e : SystemCalls K) where
  -- The rest of `sleep_interruptible` after a test of the stop flag.
  abbrev pub slice_or_stop : (ℕ → K → K) → ℕ → ℕ → Bool × K → K
  slice_or_stop next slice remaining (true, k) = k
  slice_or_stop next slice remaining (false, k) =
      next (remaining - min remaining slice) (e.nanosleep (min remaining slice) k)

  -- The loop, of which no more rounds are needed than there are milliseconds.
  unfoldable pub sleep_slices : ℕ → ℕ → ℕ → K → K
  sleep_slices zero slice remaining k = k
  sleep_slices (suc rounds) slice zero k = k
  sleep_slices (suc rounds) slice (suc remaining) k =
      slice_or_stop (sleep_slices rounds slice) slice (suc remaining) (e.should_stop k)

  unfoldable pub sleep_interruptible : ℤ → ℤ → K → K
  sleep_interruptible (pos duration_ms) slice_ms k =
      sleep_slices duration_ms (at_least 1 slice_ms) duration_ms k
  sleep_interruptible (negsuc _) slice_ms k = k

  -- The telegrams that `poll_group_telegram` returns until it returns false.
  abbrev pub stamped : (ℕ × Bytes) → (ℕ × LockResult) × K → Arrival × K
  stamped (addr, apdu) ((time, lock), k) =
      (record { time = time; lock = lock; addr = addr; apdu = apdu }, k)

  abbrev pub cons_arrival : Arrival → Option (List Arrival × K) → Option (List Arrival × K)
  cons_arrival a none = none
  cons_arrival a (some (ts, k)) = some (a ∷ ts, k)

  abbrev pub after_telegram :
      (K → Option (List Arrival × K)) → Option (Option (ℕ × Bytes) × K) → Option (List Arrival × K)
  after_telegram next none = none
  after_telegram next (some (none, k)) = some ([], k)
  after_telegram next (some (some t, k)) =
      let (a, k') = stamped t (e.stamp k) in cons_arrival a (next k')

  unfoldable pub arrivals : ℕ → K → Option (List Arrival × K)
  arrivals zero k = none
  arrivals (suc fuel) k = after_telegram (arrivals fuel) (client.poll_group_telegram k)

  -- The lambda `log_retry`.
  unfoldable pub log_retry : Reader K → Reader K
  log_retry r =
      let (now, k) = e.now r.knxd in
      let due = not r.logged_failure || leb retry_log_interval (now - r.last_log) in
      if due
      then record r { knxd = k; last_log = now; logged_failure = true }
      else record r { knxd = k }

  module _ (o : CacheReaderOptions) where
    -- `sleep_interruptible(backoff_ms, ...)` and the doubling behind it.
    unfoldable pub back_off : Reader K → Reader K
    back_off r = record r {
      knxd = sleep_interruptible r.backoff_ms o.sleep_slice_ms r.knxd;
      backoff_ms = capped (max_backoff o) (twice r.backoff_ms);
    }

    -- The branch of a successful connection.
    unfoldable pub reader_connected : Reader K → Reader K
    reader_connected r = record r {
      knxd = client.set_nonblocking true r.knxd;
      connected = true;
      backoff_ms = pos (initial_backoff o);
      logged_failure = false;
    }

    -- The branch of a failed one.
    unfoldable pub reader_failed : Reader K → Reader K
    reader_failed r = back_off (log_retry (record r { knxd = client.disconnect r.knxd }))

    abbrev pub after_open : Reader K → Option (Bool × K) → Option (Reader K)
    after_open r none = none
    after_open r (some (true, k)) = some (reader_connected (record r { knxd = k }))
    after_open r (some (false, k)) = some (reader_failed (record r { knxd = k }))

    abbrev pub after_attempted : Reader K → Bool × K → Option (Reader K)
    after_attempted r (true, k) = after_open r (client.open_group_socket false k)
    after_attempted r (false, k) = some (reader_failed (record r { knxd = k }))

    -- `drain_telegrams` and what its result does.
    abbrev pub after_drain : Reader K → Option (List Arrival × K) → Option (Reader K)
    after_drain r none = none
    after_drain r (some (ts, k)) =
        let drained = drain_telegrams ts r.cache in
        some (record r {
          knxd = k;
          cache = drained.data_;
          backoff_ms = if ltb 0 drained.pushed then pos (initial_backoff o) else r.backoff_ms;
        })

    -- "Connection lost"
    unfoldable pub reader_lost : Reader K → Reader K
    reader_lost r =
        let (now, k) = e.now r.knxd in
        back_off (record r {
          knxd = client.disconnect k;
          connected = false;
          logged_failure = true;
          last_log = now;
        })

    -- The `switch` on the result of `wait_for_activity`.
    abbrev pub after_activity : ℕ → Reader K → WaitResult × K → Option (Reader K)
    after_activity fuel r (WaitResult.group_data, k) = after_drain r (arrivals fuel k)
    after_activity fuel r (WaitResult.timeout, k) = some (record r { knxd = k })
    after_activity fuel r (WaitResult.error, k) = some (reader_lost (record r { knxd = k }))

    -- One round of the loop.
    unfoldable pub reader_round : ℕ → Reader K → Option (Reader K)
    reader_round fuel r =
        if r.connected
        then after_activity fuel r
            (client.wait_for_activity (pos (at_least 1 o.wait_timeout_ms)) r.knxd)
        else after_attempted r (client.connect o.socket_path r.knxd)

    -- The loop; the fuel is for its rounds and, in each of them, for the loop over telegrams.
    abbrev pub round_or_stop :
        (Reader K → Option (Reader K)) → ℕ → Reader K → Bool × K → Option (Reader K)
    round_or_stop next fuel r (true, k) = some (record r { knxd = k })
    round_or_stop next fuel r (false, k) = elim (reader_round fuel (record r { knxd = k })) [
      | none ↦ none
      | some r' ↦ next r'
    ]

    unfoldable pub reader_loop : ℕ → Reader K → Option (Reader K)
    reader_loop zero r = none
    reader_loop (suc fuel) r = round_or_stop (reader_loop fuel) fuel r (e.should_stop r.knxd)

    unfoldable pub run_cache_reader : ℕ → K → Option SharedCacheData → Option (Reader K)
    run_cache_reader fuel k cache = reader_loop fuel (start_reader o k cache)

-- ===== src/Knxd/CacheReader/Running/Backoff.antt =====
-- The delays of `run_cache_reader` in src/knxd/cache_reader.cpp.
use mathlib.Core.Option.{some-injective}
use cometvisu_knxd_fcgi.Prelude.Int.{ℤ, pos, negsuc}
use cometvisu_knxd_fcgi.Prelude.Overflow.{wrap_int-small}
use cometvisu_knxd_fcgi.Knxd.Client.Connection.{WaitResult}
use cometvisu_knxd_fcgi.Knxd.Client.Interface.{KnxdClientInterface}
use cometvisu_knxd_fcgi.Knxd.CacheReader.{Arrival, drain_telegrams}
use cometvisu_knxd_fcgi.Knxd.CacheReader.Running.{
  CacheReaderOptions, SystemCalls, Reader, initial_backoff, max_backoff, at_least, capped, twice,
  log_retry, back_off, reader_connected, reader_failed, reader_lost, after_open, after_attempted,
  after_drain, after_activity, reader_round, arrivals,
}
use cometvisu_knxd_fcgi.Prelude.{
  ℕ, ◌≤◌, ◌<◌, ◌≡◌, refl, inl, inr, Bool, true, false, Option, none, some, List, arith, ltb,
  Bool-cases, subst, sym, ◌∙◌, if◌then◌else◌, ◌*◌, ◌^◌, min,
}

-- The delay is between the first one and the longest one, and above zero.
pub record Bounded {K : Type 0} (o : CacheReaderOptions) (r : Reader K) : Type 0 where
  pub delay : ℕ
  pub is_delay : r.backoff_ms ≡ pos delay
  pub low : initial_backoff o ≤ delay
  pub high : delay ≤ max_backoff o
  pub lasts : 0 < delay

initial-le :
    (o : CacheReaderOptions) → (initial_backoff o ≤ max_backoff o) × (0 < initial_backoff o)
unfolding initial_backoff max_backoff
initial-le o = by_options o.reconnect_backoff_ms o.max_reconnect_backoff_ms
  where
    by_options : (y z : ℤ) → (at_least 1 y ≤ at_least (at_least 1 y) z) × (0 < at_least 1 y)
    by_options (pos m) (pos n) = (omega arith, omega arith)
    by_options (pos m) (negsuc n) = (omega arith, omega arith)
    by_options (negsuc m) (pos n) = (omega arith, omega arith)
    by_options (negsuc m) (negsuc n) = (omega arith, omega arith)

if_true : {A : Type 0} {b : Bool} (x y : A) → b ≡ true → (if b then x else y) ≡ x
if_true x y h = rw h

if_false : {A : Type 0} {b : Bool} (x y : A) → b ≡ false → (if b then x else y) ≡ y
if_false x y h = rw h

module _ {K : Type 0} (client : KnxdClientInterface K) (e : SystemCalls K) where
  pub log_retry-backoff : (r : Reader K) → (log_retry client e r).backoff_ms ≡ r.backoff_ms
  unfolding log_retry
  log_retry-backoff r = ground arith

module _ {K : Type 0} (client : KnxdClientInterface K) (e : SystemCalls K) (o : CacheReaderOptions)
    (short : max_backoff o < 2 ^ 30) where
  -- The doubled delay fits.
  twice-small : (n : ℕ) → n < 2 ^ 30 → twice (pos n) ≡ pos (n * 2)
  unfolding twice
  twice-small n h = wrap_int-small (n * 2) (omega arith)

  back_off-delay :
      (r : Reader K) (delay : ℕ)
      → r.backoff_ms ≡ pos delay
      → delay < 2 ^ 30
      → (back_off client e o r).backoff_ms ≡ pos (min (delay * 2) (max_backoff o))
  unfolding back_off capped
  back_off-delay r delay same h = rw (same, twice-small delay h)

  back_off-Bounded : (r : Reader K) → Bounded o r → Bounded o (back_off client e o r)
  back_off-Bounded r b =
      let (l, p) = initial-le o in
      let low = b.low in
      let high = b.high in
      let fits = short in
      record {
        delay = min (b.delay * 2) (max_backoff o);
        is_delay = back_off-delay r b.delay b.is_delay (omega arith);
        low = omega arith;
        high = omega arith;
        lasts = omega arith;
      }

  -- Another state with the same delay.
  same_delay : (r r' : Reader K) → r'.backoff_ms ≡ r.backoff_ms → Bounded o r → Bounded o r'
  same_delay r r' same b = record {
    delay = b.delay;
    is_delay = same ∙ b.is_delay;
    low = b.low;
    high = b.high;
    lasts = b.lasts;
  }

  first_delay : (r : Reader K) → r.backoff_ms ≡ pos (initial_backoff o) → Bounded o r
  first_delay r same =
      let (l, p) = initial-le o in
      record { delay = initial_backoff o; is_delay = same; low = omega arith; high = l; lasts = p }

  failed-Bounded : (r : Reader K) → Bounded o r → Bounded o (reader_failed client e o r)
  unfolding reader_failed
  failed-Bounded r b =
      let down : Reader K = record r { knxd = client.disconnect r.knxd } in
      back_off-Bounded (log_retry client e down)
        (same_delay r (log_retry client e down) (log_retry-backoff client e down) b)

  lost-Bounded : (r : Reader K) → Bounded o r → Bounded o (reader_lost client e o r)
  unfolding reader_lost
  lost-Bounded r b = back_off-Bounded _ (same_delay r _ refl b)

  connected-Bounded : (r : Reader K) → Bounded o (reader_connected client e o r)
  unfolding reader_connected
  connected-Bounded r = first_delay _ refl

  open-Bounded :
      (r r' : Reader K) (opened : Option (Bool × K))
      → Bounded o r
      → after_open client e o r opened ≡ some r'
      → Bounded o r'
  open-Bounded r r' none b h = absurd cc
  open-Bounded r r' (some (true, k)) b h =
      subst (Bounded o) (some-injective _ _ h) (connected-Bounded (record r { knxd = k }))
  open-Bounded r r' (some (false, k)) b h =
      subst (Bounded o) (some-injective _ _ h)
        (failed-Bounded (record r { knxd = k }) (same_delay r _ refl b))

  drain-Bounded :
      (r r' : Reader K) (drained : Option (List Arrival × K))
      → Bounded o r
      → after_drain client e o r drained ≡ some r'
      → Bounded o r'
  drain-Bounded r r' none b h = absurd cc
  drain-Bounded r r' (some (ts, k)) b h =
      elim (Bool-cases (ltb 0 (drain_telegrams ts r.cache).pushed)) [
        | inl news ↦ subst (Bounded o) (some-injective _ _ h) (first_delay _ (rw news))
        | inr quiet ↦ subst (Bounded o) (some-injective _ _ h) (same_delay r _ (rw quiet) b)
      ]

  connect-Bounded :
      (r r' : Reader K) (tried : Bool × K)
      → Bounded o r
      → after_attempted client e o r tried ≡ some r'
      → Bounded o r'
  connect-Bounded r r' (true, k) b h = open-Bounded r r' (client.open_group_socket false k) b h
  connect-Bounded r r' (false, k) b h =
      subst (Bounded o) (some-injective _ _ h)
        (failed-Bounded (record r { knxd = k }) (same_delay r _ refl b))

  activity-Bounded :
      (fuel : ℕ) (r r' : Reader K) (waited : WaitResult × K)
      → Bounded o r
      → after_activity client e o fuel r waited ≡ some r'
      → Bounded o r'
  activity-Bounded fuel r r' (WaitResult.group_data, k) b h =
      drain-Bounded r r' (arrivals client e fuel k) b h
  activity-Bounded fuel r r' (WaitResult.timeout, k) b h =
      subst (Bounded o) (some-injective _ _ h) (same_delay r _ refl b)
  activity-Bounded fuel r r' (WaitResult.error, k) b h =
      subst (Bounded o) (some-injective _ _ h)
        (lost-Bounded (record r { knxd = k }) (same_delay r _ refl b))

  round_connected :
      (fuel : ℕ) (r : Reader K)
      → r.connected ≡ true
      → reader_round client e o fuel r
        ≡ after_activity client e o fuel r
            (client.wait_for_activity (pos (at_least 1 o.wait_timeout_ms)) r.knxd)
  unfolding reader_round
  round_connected fuel r up = if_true _ _ up

  round_unconnected :
      (fuel : ℕ) (r : Reader K)
      → r.connected ≡ false
      → reader_round client e o fuel r
        ≡ after_attempted client e o r (client.connect o.socket_path r.knxd)
  unfolding reader_round
  round_unconnected fuel r down = if_false _ _ down

  -- When the longest delay is below 2^30 ms, so that no doubled delay exceeds an int, every round of the loop
  -- that returns, whatever the client, the stop flag and the clock do in it, keeps the delay at least as long
  -- as the first one, at most as long as the longest one, and above zero.
  pub reader_round-Bounded :
      (fuel : ℕ) (r r' : Reader K)
      → Bounded o r
      → reader_round client e o fuel r ≡ some r'
      → Bounded o r'
  unfolding reader_round
  reader_round-Bounded fuel r r' b h = elim (Bool-cases r.connected) [
    | inl up ↦
        activity-Bounded fuel r r'
          (client.wait_for_activity (pos (at_least 1 o.wait_timeout_ms)) r.knxd) b
          (sym (round_connected fuel r up) ∙ h)
    | inr down ↦
        connect-Bounded r r' (client.connect o.socket_path r.knxd) b
          (sym (round_unconnected fuel r down) ∙ h)
  ]

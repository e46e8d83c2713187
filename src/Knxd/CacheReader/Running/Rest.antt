-- ===== src/Knxd/CacheReader/Running/Rest.antt =====
-- How long `run_cache_reader` of src/knxd/cache_reader.cpp rests after a failure.
use native.Mathlib.Nat.{mul-suc}
use cometvisu_knxd_fcgi.Knxd.CacheReader.Running.Backoff.{log_retry-backoff}
use cometvisu_knxd_fcgi.Prelude.Int.{ℤ, pos, negsuc}
use cometvisu_knxd_fcgi.Knxd.Client.Interface.{KnxdClientInterface}
use cometvisu_knxd_fcgi.Knxd.CacheReader.Running.{
  CacheReaderOptions, SystemCalls, Reader, at_least, slice_or_stop, sleep_slices,
  sleep_interruptible, log_retry, back_off, reader_failed,
}
use cometvisu_knxd_fcgi.Prelude.{
  ℕ, zero, suc, ◌+◌, ◌-◌, ◌*◌, ◌≤◌, ◌<◌, min, ◌≡◌, refl, Bool, true, false, arith, subst, ◌∙◌, sym,
  inl, inr, ◌||◌, not, leb, Bool-cases, ap,
}

module _ {K : Type 0} (client : KnxdClientInterface K) (e : SystemCalls K)
    (o : CacheReaderOptions) where
  log_retry-knxd : (r : Reader K) → (log_retry client e r).knxd ≡ (e.now r.knxd).1
  unfolding log_retry
  log_retry-knxd r =
      elim (Bool-cases (not r.logged_failure || leb 30000 ((e.now r.knxd).0 - r.last_log))) [
        | inl due ↦ rw due
        | inr early ↦ rw early
      ]

  -- `signals` counts the sleeps that a signal interrupted.
  module _ (time signals : K → ℕ) where
    -- Time does not go back, and no sleep was interrupted.
    abbrev pub Later : K → K → Type 0
    Later k k' = (time k ≤ time k') × (signals k' ≡ signals k)

    -- `nanosleep` lasts as long as asked, or a signal interrupts it.
    pub data Slept (n : ℕ) (k k' : K) : Type 0 where
      whole : time k + n ≤ time k' → signals k' ≡ signals k → Slept n k k'
      interrupted : time k ≤ time k' → signals k' ≡ suc (signals k) → Slept n k k'

    pub record RestLaw : Type 0 where
      pub sleeps : (n : ℕ) (k : K) → Slept n k (e.nanosleep n k)
      pub tests : (k : K) → Later k (e.should_stop k).1
      pub reads : (k : K) → Later k (e.now k).1
      pub disconnects : (k : K) → Later k (client.disconnect k)

    -- So many milliseconds went by, less one slice for each sleep that a signal interrupted, or the stop
    -- flag was found set at the end.
    pub data Rested (slice duration : ℕ) (k k' : K) : Type 0 where
      lasted :
          time k + duration + slice * signals k ≤ time k' + slice * signals k'
          → Rested slice duration k k'
      stopped : (k'' : K) → e.should_stop k'' ≡ (true, k') → Rested slice duration k k'

    -- Before a rest, the time of a call or of a part of it.
    longer :
        (slice d d' : ℕ) (k k₁ k' : K)
        → time k + d' + slice * signals k ≤ time k₁ + d + slice * signals k₁
        → Rested slice d k₁ k'
        → Rested slice d' k k'
    longer slice d d' k k₁ k' h (lasted l) = lasted (omega arith)
    longer slice d d' k k₁ k' h (stopped k'' s) = stopped k'' s

    after_call :
        (slice d : ℕ) (k k₁ k' : K) → Later k k₁ → Rested slice d k₁ k' → Rested slice d k k'
    after_call slice d k k₁ k' (t, s) rest =
        let same : slice * signals k₁ ≡ slice * signals k = ap (λ (n : ℕ). slice * n) s in
        longer slice d d k k₁ k' (omega arith) rest

    after_sleep :
        (slice n d d' : ℕ) (k k₁ k' : K)
        → n ≤ slice
        → d' ≤ d + n
        → Slept n k k₁
        → Rested slice d k₁ k'
        → Rested slice d' k k'
    after_sleep slice n d d' k k₁ k' part enough (whole t s) rest =
        let same : slice * signals k₁ ≡ slice * signals k = ap (λ (m : ℕ). slice * m) s in
        longer slice d d' k k₁ k' (omega arith) rest
    after_sleep slice n d d' k k₁ k' part enough (interrupted t s) rest =
        let more : slice * signals k₁ ≡ slice * signals k + slice =
          ap (λ (m : ℕ). slice * m) s ∙ mul-suc slice (signals k) in
        longer slice d d' k k₁ k' (omega arith) rest

    after_test :
        (rounds slice remaining : ℕ) (k : K) (t : Bool × K)
        → RestLaw
        → e.should_stop k ≡ t
        → ((k₁ : K)
            → Rested slice
                (suc remaining - min (suc remaining) slice)
                k₁
                (sleep_slices client e rounds slice (suc remaining - min (suc remaining) slice) k₁))
        → Rested slice
            (suc remaining)
            k
            (slice_or_stop client e (sleep_slices client e rounds slice) slice (suc remaining) t)
    after_test rounds slice remaining k (true, k₁) law s rest = stopped k s
    after_test rounds slice remaining k (false, k₁) law s rest =
        let chunk = min (suc remaining) slice in
        let tested = subst (λ (t : Bool × K). Later k t.1) s (law.tests k) in
        after_call slice (suc remaining) k k₁ _ tested (
          after_sleep slice chunk (suc remaining - chunk) (suc remaining) k₁ (e.nanosleep chunk k₁)
            _ (omega arith) (omega arith) (law.sleeps chunk k₁) (rest (e.nanosleep chunk k₁)))

    slices-Rested :
        (rounds slice remaining : ℕ) (k : K)
        → RestLaw
        → 0 < slice
        → remaining ≤ rounds
        → Rested slice remaining k (sleep_slices client e rounds slice remaining k)
    unfolding sleep_slices
    slices-Rested zero slice zero k law p h = lasted (omega arith)
    slices-Rested zero slice (suc remaining) k law p h = absurd (omega arith)
    slices-Rested (suc rounds) slice zero k law p h = lasted (omega arith)
    slices-Rested (suc rounds) slice (suc remaining) k law p h =
        after_test rounds slice remaining k (e.should_stop k) law refl (λ k₁.
          slices-Rested rounds slice (suc remaining - min (suc remaining) slice) k₁ law p
            (omega arith))

    at_least-pos : (z : ℤ) → 0 < at_least 1 z
    at_least-pos (pos n) = omega arith
    at_least-pos (negsuc n) = omega arith

    sleep_interruptible-Rested :
        (duration : ℕ) (slice_ms z : ℤ) (k : K)
        → RestLaw
        → z ≡ pos duration
        → Rested (at_least 1 slice_ms) duration k (sleep_interruptible client e z slice_ms k)
    unfolding sleep_interruptible
    sleep_interruptible-Rested duration slice_ms z k law same = rw same (
        slices-Rested duration (at_least 1 slice_ms) duration k law (at_least-pos slice_ms)
          (omega arith))

    -- After a failed attempt to connect with a delay that is not negative, unless the stop flag was found
    -- set: the delay goes by before the next round, less at most one slice of the sleep for each nanosleep
    -- that a signal interrupted.
    pub reader_failed-Rested :
        (r : Reader K) (delay : ℕ)
        → RestLaw
        → r.backoff_ms ≡ pos delay
        → Rested (at_least 1 o.sleep_slice_ms) delay r.knxd (reader_failed client e o r).knxd
    unfolding reader_failed back_off
    reader_failed-Rested r delay law same =
        let down : Reader K = record r { knxd = client.disconnect r.knxd } in
        let logged = log_retry client e down in
        let slice = at_least 1 o.sleep_slice_ms in
        let kept =
          subst (λ k. Later down.knxd k) (sym (log_retry-knxd down)) (law.reads down.knxd) in
        after_call slice delay r.knxd down.knxd _ (law.disconnects r.knxd) (
          after_call slice delay down.knxd logged.knxd _ kept (
            sleep_interruptible-Rested delay o.sleep_slice_ms logged.backoff_ms logged.knxd law
              (log_retry-backoff client e down ∙ same)))

-- ===== src/State/SharedGroupCache/Waiting/Wakeup.antt =====
-- A push wakes a client that waits in `wait_for_new_data` of src/state/shared_group_cache.cpp.
use cometvisu_knxd_fcgi.Prelude.Int.{pos}
use cometvisu_knxd_fcgi.State.Position.{u32}
use cometvisu_knxd_fcgi.State.SharedGroupCache.{
  SharedCacheData, LockResult, holds_lock, push_locked, insert_locked,
}
use cometvisu_knxd_fcgi.State.SharedGroupCache.Waiting.{
  Wake, WaitCall, wait_loop, wait_locked, wait_for_new_data,
}
use cometvisu_knxd_fcgi.Prelude.{
  ℕ, zero, suc, ◌+◌, ◌%◌, ◌<◌, ◌≡◌, refl, true, false, some, List, ◌∷◌, ◌++◌, arith, Bytes, ◌==◌,
  replicate,
}

-- A return of the wait although nothing was pushed.
abbrev pub spurious : SharedCacheData → Wake
spurious d = record { call = WaitCall.signalled; generation = d.generation }

wait_loop-spurious :
    (d : SharedCacheData) (n : ℕ) (wakes : List Wake)
    → wait_loop d.generation (replicate n (spurious d) ++ wakes) ≡ wait_loop d.generation wakes
unfolding wait_loop
wait_loop-spurious d zero wakes = refl
wait_loop-spurious d (suc n) wakes = ground (arith, wait_loop-spurious d n wakes)

generation-push_locked :
    (time addr : ℕ) (value : Bytes) (d : SharedCacheData)
    → (push_locked time addr value d).generation ≡ (d.generation + 1) % u32
unfolding push_locked insert_locked
generation-push_locked time addr value d = ground arith

-- While the mutex can be taken, a client that waits with a positive timeout learns of a push by the
-- first return of the wait after it, be it a signal, a timeout or an error, and whatever number of
-- spurious returns came before. If nothing is pushed, it learns of that at the timeout.
pub wait_for_new_data-push :
    (lock : LockResult) (timeout n time addr : ℕ) (value : Bytes) (d : SharedCacheData)
    (call : WaitCall) (later : List Wake)
    → holds_lock lock ≡ true
    → 0 < timeout
    → d.generation < u32
    → (let wait = λ (w : Wake).
          wait_for_new_data lock (pos timeout) (some d) (replicate n (spurious d) ++ w ∷ later) in
        (wait (record { call = call; generation = (push_locked time addr value d).generation })
          ≡ some true)
        × (wait (record { call = WaitCall.timed_out; generation = d.generation }) ≡ some false))
unfolding wait_for_new_data wait_locked wait_loop
wait_for_new_data-push lock zero n time addr value d call later h p g = absurd (omega arith)
wait_for_new_data-push lock (suc t) n time addr value d call later h p g =
    let new = generation-push_locked time addr value d in
    let differs : ((push_locked time addr value d).generation == d.generation) ≡ false =
      ground arith in
    let same : (d.generation == d.generation) ≡ true = ground arith in
    (
      rw (h, wait_loop-spurious d n _) (rw (wait_loop, differs)),
      rw (h, wait_loop-spurious d n _) (rw (wait_loop, same)),
    )

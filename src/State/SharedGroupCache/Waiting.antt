-- ===== src/State/SharedGroupCache/Waiting.antt =====
-- `wait_for_new_data` of src/state/shared_group_cache.cpp.
pub mod Wakeup
use cometvisu_knxd_fcgi.Prelude.Int.{ℤ, pos, negsuc}
use cometvisu_knxd_fcgi.State.SharedGroupCache.{SharedCacheData, LockResult, holds_lock}
use cometvisu_knxd_fcgi.Prelude.{
  ℕ, zero, suc, Bool, true, false, Option, none, some, List, [], ◌∷◌, ltb, ◌==◌, if◌then◌else◌,
}

-- The result of `pthread_cond_timedwait`: 0, ETIMEDOUT, or another error.
pub data WaitCall : Type 0 where
  signalled timed_out failed : WaitCall

-- A return of `pthread_cond_timedwait`, with the generation that is then in the region.
pub record Wake : Type 0 where
  pub call : WaitCall
  pub generation : ℕ

-- The loop from its second round on, with the last result; `none` means that the call has not returned yet.
unfoldable pub wait_loop : ℕ → List Wake → Option Bool
wait_loop gen_before [] = none
wait_loop gen_before (w ∷ wakes) =
    let next = wait_loop gen_before wakes in
    if w.generation == gen_before
    then elim w.call [ WaitCall.signalled ↦ next | _ ↦ some false ]
    else some true

unfoldable pub wait_locked : ℤ → SharedCacheData → List Wake → Option Bool
wait_locked (pos zero) d wakes = some (ltb 0 d.generation)
wait_locked (pos (suc _)) d wakes = wait_loop d.generation wakes
wait_locked (negsuc _) d wakes = some (ltb 0 d.generation)

unfoldable pub wait_for_new_data : LockResult → ℤ → Option SharedCacheData → List Wake → Option Bool
wait_for_new_data lock timeout_ms none wakes = some false
wait_for_new_data lock timeout_ms (some d) wakes =
    if holds_lock lock then wait_locked timeout_ms d wakes else some false

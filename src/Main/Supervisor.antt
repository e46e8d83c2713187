-- ===== src/Main/Supervisor.antt =====
-- The supervisor of src/main.cpp: it starts the cache reader and the workers, starts again those that end,
-- and stops them all. Loops that wait for the system take fuel; `none` means that it ran out.
pub mod Tracking
pub mod Rounds
pub mod Pool
pub mod Coming
pub mod Ending
pub mod Whole
use mathlib.Core.Option
use cometvisu_knxd_fcgi.Main.Processes.{Processes, Reaped, Semaphore}
use cometvisu_knxd_fcgi.Prelude.{
  ℕ, zero, suc, ◌-◌, ◌*◌, ◌/◌, min, Bool, true, false, Option, none, some, List, [], ◌∷◌, ltb, ◌==◌,
  if◌then◌else◌, All, get_or, set, replicate,
}

pub record RestartBackoff : Type 0 where
  pub delay_ms : ℕ
  pub started_at : ℕ

-- A new one, and `on_spawn`.
abbrev pub new_backoff : ℕ → RestartBackoff
new_backoff now = record { delay_ms = 100; started_at = now }

unfoldable pub on_spawn : ℕ → RestartBackoff → RestartBackoff
on_spawn now b = record b { started_at = now }

-- The delay before the restart.
unfoldable pub on_death : ℕ → RestartBackoff → ℕ × RestartBackoff
on_death now b =
    let lived = (now - b.started_at) / 1_000_000_000 in
    let delay_ms = if ltb 60 lived then 100 else b.delay_ms in
    (delay_ms, record b { delay_ms = min (delay_ms * 2) 30000 })

-- `cache_reader_pid` and `worker_pids`, where `none` is -1, with their delays.
pub record Children : Type 0 where
  pub reader : Option ℕ
  pub workers : List (Option ℕ)
  pub reader_backoff : RestartBackoff
  pub worker_backoff : List RestartBackoff

-- The children and all that lies outside.
pub record Family (P : Type 0) : Type 0 where
  pub children : Children
  pub world : P

-- `pid == waited`
unfoldable pub is_pid : ℕ → Option ℕ → Bool
is_pid waited none = false
is_pid waited (some pid) = pid == waited

-- The first index with this pid.
unfoldable pub find_worker : ℕ → List (Option ℕ) → Option ℕ
find_worker waited [] = none
find_worker waited (pid ∷ pids) =
    let later = Option.map suc (find_worker waited pids) in
    if is_pid waited pid then some 0 else later

module _ {P : Type 0} (sys : Processes P) (num_workers : ℕ) where
  abbrev pub after_getvalue : Semaphore → Option ℕ × P → P
  after_getvalue sem (none, p) = p
  after_getvalue sem (some value, p) = if ltb value num_workers then sys.sem_post sem p else p

  unfoldable pub restore_semaphore : Semaphore → P → P
  restore_semaphore sem p = after_getvalue sem (sys.sem_getvalue sem p)

  -- The delay of a restart: `usleep(on_death() * 1000)`.
  abbrev pub pause : RestartBackoff → ℕ × P → RestartBackoff × P
  pause b (now, p) = let (delay_ms, b') = on_death now b in (b', sys.usleep (delay_ms * 1000) p)

  -- What follows a fork: `on_spawn` if it succeeded.
  abbrev pub spawned : RestartBackoff → Option ℕ × P → (Option ℕ × RestartBackoff) × P
  spawned b (none, p) = ((none, b), p)
  spawned b (some pid, p) = let (now, p') = sys.now p in ((some pid, on_spawn now b), p')

  -- A child is started again after its delay.
  unfoldable pub respawn : RestartBackoff → P → (Option ℕ × RestartBackoff) × P
  respawn b p = let (b', p') = pause b (sys.now p) in spawned b' (sys.fork p')

  abbrev pub set_reader : Children → (Option ℕ × RestartBackoff) × P → Family P
  set_reader c ((pid, b), p) = record {
    children = record c { reader = pid; reader_backoff = b };
    world = p;
  }

  unfoldable pub restart_reader : Family P → Family P
  restart_reader f = set_reader f.children (respawn f.children.reader_backoff f.world)

  abbrev pub set_worker : ℕ → Children → (Option ℕ × RestartBackoff) × P → Family P
  set_worker i c ((pid, b), p) = record {
    children = record c {
      workers = set c.workers i pid;
      worker_backoff = set c.worker_backoff i b;
    };
    world = p;
  }

  unfoldable pub restart_worker : ℕ → Family P → Family P
  restart_worker i f =
      let p =
        restore_semaphore Semaphore.load_shed (restore_semaphore Semaphore.concurrency f.world) in
      set_worker i f.children (respawn (get_or f.children.worker_backoff i (new_backoff 0)) p)

  -- The loop over the workers.
  abbrev pub restart_found : Option ℕ → Family P → Family P
  restart_found none f = f
  restart_found (some i) f = restart_worker i f

  unfoldable pub child_died : ℕ → Family P → Family P
  child_died waited f =
      if is_pid waited f.children.reader
      then restart_reader f
      else restart_found (find_worker waited f.children.workers) f

  -- The rest of the loop is `next`; what the flag says behind `wait`, what `wait` returned, and what the flag says before.
  abbrev pub after_flag :
      (Family P → Option (Family P)) → ℕ → Children → Bool × P → Option (Family P)
  after_flag next waited c (true, p) = some (record { children = c; world = p })
  after_flag next waited c (false, p) =
      next (child_died waited (record { children = c; world = p }))

  abbrev pub after_child :
      (Family P → Option (Family P)) → Children → Reaped × P → Option (Family P)
  after_child next c (Reaped.child waited, p) = after_flag next waited c (sys.shutdown_requested p)
  after_child next c (Reaped.interrupted, p) = next (record { children = c; world = p })
  after_child next c (Reaped.no_child, p) = some (record { children = c; world = p })

  abbrev pub supervise_round :
      (Family P → Option (Family P)) → Children → Bool × P → Option (Family P)
  supervise_round next c (true, p) = some (record { children = c; world = p })
  supervise_round next c (false, p) = after_child next c (sys.wait p)

  unfoldable pub supervise : ℕ → Family P → Option (Family P)
  supervise zero f = none
  supervise (suc fuel) f =
      supervise_round (supervise fuel) f.children (sys.shutdown_requested f.world)

  -- `if (pid > 0) kill(pid, SIGTERM)`
  abbrev pub kill_child : Option ℕ → P → P
  kill_child none p = p
  kill_child (some pid) p = sys.kill pid p

  unfoldable pub kill_workers : List (Option ℕ) → P → P
  kill_workers [] p = p
  kill_workers (pid ∷ pids) p = kill_workers pids (kill_child pid p)

  -- `while (wait(&status) > 0) {}`
  abbrev pub after_last : (P → Option P) → Reaped × P → Option P
  after_last next (Reaped.child _, p) = next p
  after_last next (_, p) = some p

  unfoldable pub wait_all : ℕ → P → Option P
  wait_all zero p = none
  wait_all (suc fuel) p = after_last (wait_all fuel) (sys.wait p)

  -- All children are told to stop, and waited for.
  unfoldable pub stop_all : ℕ → Option ℕ → List (Option ℕ) → P → Option P
  stop_all fuel reader workers p = wait_all fuel (kill_workers workers (kill_child reader p))

  -- The loop that starts the workers: the slots that are left, and whether no fork failed.
  abbrev pub cons_worker : ℕ → (Bool × List (Option ℕ)) × P → (Bool × List (Option ℕ)) × P
  cons_worker pid ((ok, pids), p) = ((ok, some pid ∷ pids), p)

  abbrev pub after_fork :
      (P → (Bool × List (Option ℕ)) × P) → ℕ → Option ℕ × P → (Bool × List (Option ℕ)) × P
  after_fork next left (none, p) = ((false, replicate (suc left) none), p)
  after_fork next left (some pid, p) = cons_worker pid (next p)

  unfoldable pub start_workers : ℕ → P → (Bool × List (Option ℕ)) × P
  start_workers zero p = ((true, []), p)
  start_workers (suc left) p = after_fork (start_workers left) left (sys.fork p)

  -- A new delay for each worker.
  abbrev pub cons_delay : RestartBackoff → List RestartBackoff × P → List RestartBackoff × P
  cons_delay b (bs, p) = (b ∷ bs, p)

  unfoldable pub worker_delays : ℕ → P → List RestartBackoff × P
  worker_delays zero p = ([], p)
  worker_delays (suc n) p =
      let (now, p') = sys.now p in cons_delay (new_backoff now) (worker_delays n p')

  abbrev pub with_delays : Option ℕ → List (Option ℕ) → ℕ × P → Family P
  with_delays reader workers (now, p) =
      let (delays, p') = worker_delays num_workers p in
      record {
        children = record {
          reader = reader;
          workers = workers;
          reader_backoff = new_backoff now;
          worker_backoff = delays;
        };
        world = p';
      }

  -- The result of `main`, from the loop of the supervisor on.
  abbrev pub stopped : ℕ → Option P → Option (ℕ × P)
  stopped result none = none
  stopped result (some p) = some (result, p)

  abbrev pub shut_down : ℕ → Bool × P → Children → Option (ℕ × P)
  shut_down fuel (true, p) c = stopped 0 (stop_all fuel c.reader c.workers p)
  shut_down fuel (false, p) c = some (0, p)

  abbrev pub after_supervise : ℕ → Option (Family P) → Option (ℕ × P)
  after_supervise fuel none = none
  after_supervise fuel (some f) = shut_down fuel (sys.shutdown_requested f.world) f.children

  abbrev pub after_start : ℕ → Option ℕ → (Bool × List (Option ℕ)) × P → Option (ℕ × P)
  after_start fuel reader ((true, workers), p) =
      after_supervise fuel (supervise fuel (with_delays reader workers (sys.now p)))
  after_start fuel reader ((false, workers), p) = stopped 1 (stop_all fuel reader workers p)

  abbrev pub after_reader : ℕ → Option ℕ × P → Option (ℕ × P)
  after_reader fuel (none, p) = some (1, p)
  after_reader fuel (some pid, p) = after_start fuel (some pid) (start_workers num_workers p)

  -- "Start the cache reader and the worker pool", to the end of the supervisor.
  unfoldable pub run_pool : ℕ → P → Option (ℕ × P)
  run_pool fuel p = after_reader fuel (sys.fork p)

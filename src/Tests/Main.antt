-- ===== src/Tests/Main.antt =====
-- The theorems on src/main.cpp with a small system in place of the kernel.
use cometvisu_knxd_fcgi.Prelude.Int.{ℤ, pos, negsuc}
use cometvisu_knxd_fcgi.Prelude.Decimal.{to_decimal}
use cometvisu_knxd_fcgi.Fcgi.Server.{leading_digits}
use cometvisu_knxd_fcgi.Main.Processes.{Processes, Reaped}
use cometvisu_knxd_fcgi.Main.Supervisor.{
  Family, RestartBackoff, on_death, on_spawn, is_pid, find_worker, restore_semaphore, respawn,
  restart_worker, child_died, supervise, start_workers, worker_delays, kill_child, kill_workers,
}
use cometvisu_knxd_fcgi.Main.Supervisor.Tracking.{FamilyLaw, same}
use cometvisu_knxd_fcgi.Main.Supervisor.Rounds.{
  IsKnown, first_family, first_family-IsTracked, supervise-told,
}
use cometvisu_knxd_fcgi.Main.Supervisor.Whole.{IsWhole, supervise-IsWhole, supervise-IsLost}
use cometvisu_knxd_fcgi.Main.Settings.{
  config, parse_env_int, strtol, scan_sign, scan_number, skip_spaces, is_space, to_long,
}
use cometvisu_knxd_fcgi.Main.Settings.Numbers.{
  IsSmall, Within, config-bounds, parse_env_int-negative,
}
use cometvisu_knxd_fcgi.Prelude.{
  ℕ, ◌+◌, ◌-◌, ◌≡◌, refl, none, some, List, [], ◌∷◌, ◌==◌, ◌≤◌, sym, ap, Option, arith, Bytes,
  if◌then◌else◌, bytes_eq, codes,
}

-- The children that run, the next pid, the pids that were signalled, and when the shutdown comes.
record Kernel : Type 0 where
  live : List ℕ
  next : ℕ
  killed : List ℕ
  rounds : ℕ

abbrev occurrences : ℕ → List ℕ → ℕ
occurrences m [] = 0
occurrences m (x ∷ xs) = occurrences m xs + same m x

abbrev wait_first : List ℕ → Kernel → Reaped × Kernel
wait_first [] k = (Reaped.no_child, k)
wait_first (x ∷ xs) k = (Reaped.child x, record k { live = xs })

abbrev kernel : Processes Kernel
kernel = record {
  fork = λ k. (some k.next, record k { live = k.next ∷ k.live; next = k.next + 1 });
  wait = λ k. wait_first k.live k;
  kill = λ pid k. record k { killed = pid ∷ k.killed };
  shutdown_requested = λ k. (k.rounds == 0, record k { rounds = k.rounds - 1 });
  usleep = λ n k. k;
  now = λ k. (0, k);
  sem_getvalue = λ sem k. (none, k);
  sem_post = λ sem k. k;
}

abbrev live_count : ℕ → Kernel → ℕ
live_count m k = occurrences m k.live

abbrev told_count : ℕ → Kernel → ℕ
told_count m k = occurrences m k.killed

abbrev pid_of : Reaped → ℕ
pid_of (Reaped.child pid) = pid
pid_of _ = 0

kernel-FamilyLaw : FamilyLaw kernel live_count told_count
kernel-FamilyLaw = record {
  forks = λ m k. refl;
  reaps = λ m pid k k' e. reaped m pid k.live k k' e;
  interrupts = λ m k k' e. undisturbed m k.live k k' e;
  ends = λ m k k' e. left_alone m k.live k k' e;
  childless = λ m k k' e. childless m k.live k k' e;
  kills = λ m pid k. refl;
  flags = λ m k. refl;
  sleeps = λ m n k. refl;
  clocks = λ m k. refl;
  reads = λ m sem k. refl;
  posts = λ m sem k. refl;
  signals = λ m pid k. refl;
}
  where
    reaped :
        (m pid : ℕ) (live : List ℕ) (k k' : Kernel)
        → wait_first live (record k { live = live }) ≡ (Reaped.child pid, k')
        → occurrences m live ≡ occurrences m k'.live + same m pid
    reaped m pid [] k k' e = absurd cc
    reaped m pid (x ∷ xs) k k' e =
        ap (λ (r : Reaped × Kernel). occurrences m r.1.live + same m (pid_of r.0)) e

    undisturbed :
        (m : ℕ) (live : List ℕ) (k k' : Kernel)
        → wait_first live (record k { live = live }) ≡ (Reaped.interrupted, k')
        → occurrences m k'.live ≡ occurrences m live
    undisturbed m [] k k' e = absurd cc
    undisturbed m (x ∷ xs) k k' e = absurd cc

    left_alone :
        (m : ℕ) (live : List ℕ) (k k' : Kernel)
        → wait_first live (record k { live = live }) ≡ (Reaped.no_child, k')
        → occurrences m k'.live ≡ occurrences m live
    left_alone m [] k k' e = ap (λ (r : Reaped × Kernel). occurrences m r.1.live) (sym e)
    left_alone m (x ∷ xs) k k' e = absurd cc

    childless :
        (m : ℕ) (live : List ℕ) (k k' : Kernel)
        → wait_first live (record k { live = live }) ≡ (Reaped.no_child, k')
        → occurrences m live ≡ 0
    childless m [] k k' e = refl
    childless m (x ∷ xs) k k' e = absurd cc

-- One worker, which dies before the shutdown.
abbrev before : Kernel
before = record { live = []; next = 1; killed = []; rounds = 2 }

abbrev delayed : ℕ → RestartBackoff
delayed ms = record { delay_ms = ms; started_at = 0 }

abbrev after : Family Kernel
after = record {
  children = record {
    reader = some 1;
    workers = some 3 ∷ [];
    reader_backoff = delayed 100;
    worker_backoff = delayed 200 ∷ [];
  };
  world = record { live = 3 ∷ 1 ∷ []; next = 4; killed = []; rounds = 0 };
}

worker_restarted :
    supervise kernel 1 5 (first_family kernel 1 live_count told_count kernel-FamilyLaw before)
    ≡ some after
unfolding supervise start_workers worker_delays child_died is_pid find_worker restart_worker
    restore_semaphore respawn on_death on_spawn
worker_restarted = refl

supervise-told_example :
    1 + 0
    ≤ occurrences 3
        (kill_workers kernel 1 (some 3 ∷ []) (kill_child kernel 1 (some 1) after.world)).killed
supervise-told_example =
    supervise-told kernel 1 live_count told_count kernel-FamilyLaw 5 before after 3 (λ n. refl)
      worker_restarted

first_family-IsWhole :
    IsWhole kernel 1 (first_family kernel 1 live_count told_count kernel-FamilyLaw before).children
unfolding start_workers worker_delays
first_family-IsWhole = record {
  reader_held = λ e. absurd cc;
  reader_patient = (omega arith, omega arith);
  workers_held = (λ e. absurd cc, tt);
  workers_patient = ((omega arith, omega arith), tt);
  workers_count = refl;
  delays_count = refl;
}

supervise-IsWhole_example :
    IsWhole kernel 1 after.children × IsKnown kernel 1 live_count told_count kernel-FamilyLaw after
supervise-IsWhole_example =
    supervise-IsWhole kernel 1 (λ k e. absurd cc) live_count told_count kernel-FamilyLaw 5
      (first_family kernel 1 live_count told_count kernel-FamilyLaw before) after
      first_family-IsWhole
      (first_family-IsTracked kernel 1 live_count told_count kernel-FamilyLaw before (λ m. refl))
      worker_restarted

-- The reader could not be started again, and a worker dies.
abbrev without_reader : Kernel → List (Option ℕ) → ℕ → Family Kernel
without_reader k workers ms = record {
  children = record {
    reader = none;
    workers = workers;
    reader_backoff = delayed 200;
    worker_backoff = delayed ms ∷ [];
  };
  world = k;
}

still_without :
    supervise kernel 1 5 (
      without_reader
        (record { live = 2 ∷ []; next = 3; killed = []; rounds = 2 })
        (some 2 ∷ [])
        100)
    ≡ some (
        without_reader
          (record { live = 3 ∷ []; next = 4; killed = []; rounds = 0 })
          (some 3 ∷ [])
          200)
unfolding supervise child_died is_pid find_worker restart_worker restore_semaphore respawn on_death
    on_spawn
still_without = refl

supervise-IsLost_example :
    (without_reader
      (record { live = 3 ∷ []; next = 4; killed = []; rounds = 0 })
      (some 3 ∷ [])
      200).children.reader
    ≡ none
supervise-IsLost_example =
    supervise-IsLost kernel 1 5
      (without_reader (record { live = 2 ∷ []; next = 3; killed = []; rounds = 2 }) (some 2 ∷ [])
        100)
      (without_reader (record { live = 3 ∷ []; next = 4; killed = []; rounds = 0 }) (some 3 ∷ [])
        200)
      refl still_without

abbrev getenv : Bytes → Option Bytes
getenv name = if bytes_eq name (codes "FCGI_WORKERS") then some (codes " 500") else none

workers-IsSmall : IsSmall (some (codes " 500"))
unfolding IsSmall strtol scan_sign scan_number skip_spaces is_space to_long leading_digits
workers-IsSmall n e =
    let value =
      ap
        (λ (o : Option (ℤ × Bytes)).
          let v : ℕ = elim o [ none ↦ 0 | some (z, rest) ↦ elim z [ pos k ↦ k | negsuc k ↦ 0 ] ] in
          v)
        e in
    omega arith

timeout-IsSmall : IsSmall none
unfolding IsSmall
timeout-IsSmall = tt

config-bounds_example :
    Within 1 3600 (config getenv).longpoll_timeout × Within 1 256 (config getenv).num_workers
config-bounds_example = config-bounds getenv timeout-IsSmall workers-IsSmall

parse_env_int-negative_example :
    parse_env_int (some (to_decimal 3_000_000_000)) 20 1 256 ≡ negsuc 1_294_967_295
parse_env_int-negative_example =
    parse_env_int-negative 3_000_000_000 20 1 256 (omega arith) (omega arith) (omega arith)

-- ===== src/Tests/Pool.antt =====
-- The worker pool of src/main.cpp with a small system in which only so many forks succeed.
use cometvisu_knxd_fcgi.Main.Processes.{Processes, Reaped}
use cometvisu_knxd_fcgi.Main.Supervisor.{run_pool}
use cometvisu_knxd_fcgi.Main.Supervisor.Tracking.{FamilyLaw, same, holds}
use cometvisu_knxd_fcgi.Main.Supervisor.Coming.{ComingLaw}
use cometvisu_knxd_fcgi.Main.Supervisor.Ending.{StopLaw}
use cometvisu_knxd_fcgi.Main.Supervisor.Pool.{Ends, Failed, run_pool-Ends}
use cometvisu_knxd_fcgi.Prelude.{
  ℕ, zero, suc, ◌+◌, ◌-◌, ◌≤◌, ◌<◌, ◌≡◌, ◌≢◌, refl, sym, ap, Option, none, some, List, [], ◌∷◌,
  arith, ◌==◌, length,
}

-- The children that run, the forks that still succeed, the pids that were signalled, and when the
-- shutdown comes. A pid is the number of the forks that were left.
record Machine : Type 0 where
  live : List ℕ
  spare : ℕ
  killed : List ℕ
  rounds : ℕ

abbrev occurrences : ℕ → List ℕ → ℕ
occurrences m [] = 0
occurrences m (x ∷ xs) = occurrences m xs + same m x

abbrev fork_one : ℕ → Machine → Option ℕ × Machine
fork_one zero k = (none, k)
fork_one (suc n) k = (some n, record k { live = n ∷ k.live; spare = n })

abbrev wait_first : List ℕ → Machine → Reaped × Machine
wait_first [] k = (Reaped.no_child, k)
wait_first (x ∷ xs) k = (Reaped.child x, record k { live = xs })

abbrev machine : Processes Machine
machine = record {
  fork = λ k. fork_one k.spare k;
  wait = λ k. wait_first k.live k;
  kill = λ pid k. record k { killed = pid ∷ k.killed };
  shutdown_requested = λ k. (k.rounds == 0, record k { rounds = k.rounds - 1 });
  usleep = λ n k. k;
  now = λ k. (0, k);
  sem_getvalue = λ sem k. (none, k);
  sem_post = λ sem k. k;
}

abbrev live_count : ℕ → Machine → ℕ
live_count m k = occurrences m k.live

abbrev told_count : ℕ → Machine → ℕ
told_count m k = occurrences m k.killed

abbrev pid_of : Reaped → ℕ
pid_of (Reaped.child pid) = pid
pid_of _ = 0

machine-FamilyLaw : FamilyLaw machine live_count told_count
machine-FamilyLaw = record {
  forks = λ m k. forked m k.spare k;
  reaps = λ m pid k k' e. reaped m pid k.live k k' e;
  interrupts = λ m k k' e. undisturbed m k.live k k' e;
  ends = λ m k k' e. left_alone m k.live k k' e;
  childless = λ m k k' e. childless m k.live k k' e;
  kills = λ m pid k. refl;
  flags = λ m k. refl;
  sleeps = λ m n k. refl;
  clocks = λ m k. refl;
  reads = λ m sem k. refl;
  posts = λ m sem k. refl;
  signals = λ m pid k. refl;
}
  where
    forked :
        (m spare : ℕ) (k : Machine)
        → (let (pid, k') = fork_one spare k in live_count m k' ≡ live_count m k + holds m pid)
    forked m zero k = omega arith
    forked m (suc n) k = refl

    reaped :
        (m pid : ℕ) (live : List ℕ) (k k' : Machine)
        → wait_first live (record k { live = live }) ≡ (Reaped.child pid, k')
        → occurrences m live ≡ occurrences m k'.live + same m pid
    reaped m pid [] k k' e = absurd cc
    reaped m pid (x ∷ xs) k k' e =
        ap (λ (r : Reaped × Machine). occurrences m r.1.live + same m (pid_of r.0)) e

    undisturbed :
        (m : ℕ) (live : List ℕ) (k k' : Machine)
        → wait_first live (record k { live = live }) ≡ (Reaped.interrupted, k')
        → occurrences m k'.live ≡ occurrences m live
    undisturbed m [] k k' e = absurd cc
    undisturbed m (x ∷ xs) k k' e = absurd cc

    left_alone :
        (m : ℕ) (live : List ℕ) (k k' : Machine)
        → wait_first live (record k { live = live }) ≡ (Reaped.no_child, k')
        → occurrences m k'.live ≡ occurrences m live
    left_alone m [] k k' e = ap (λ (r : Reaped × Machine). occurrences m r.1.live) (sym e)
    left_alone m (x ∷ xs) k k' e = absurd cc

    childless :
        (m : ℕ) (live : List ℕ) (k k' : Machine)
        → wait_first live (record k { live = live }) ≡ (Reaped.no_child, k')
        → occurrences m live ≡ 0
    childless m [] k k' e = refl
    childless m (x ∷ xs) k k' e = absurd cc

-- The children that run and those that can still be started.
abbrev coming : Machine → ℕ
coming k = length k.live + k.spare

machine-ComingLaw : ComingLaw machine coming
machine-ComingLaw = record {
  reaps = λ pid k k' e. reaped pid k.live k k' e;
  breaks = λ k k' e. broken k.live k k' e;
  ends = λ k k' e. left_alone k.live k k' e;
  forks = λ k. forked k.spare k refl;
  kills = λ pid k. omega arith;
  flags = λ k. omega arith;
  sleeps = λ n k. omega arith;
  clocks = λ k. omega arith;
  reads = λ sem k. omega arith;
  posts = λ sem k. omega arith;
}
  where
    reaped :
        (pid : ℕ) (live : List ℕ) (k k' : Machine)
        → wait_first live (record k { live = live }) ≡ (Reaped.child pid, k')
        → coming k' < length live + k.spare
    reaped pid [] k k' e = absurd cc
    reaped pid (x ∷ xs) k k' e =
        let kept = ap (λ (r : Reaped × Machine). coming r.1) e in omega arith

    broken :
        (live : List ℕ) (k k' : Machine)
        → wait_first live (record k { live = live }) ≡ (Reaped.interrupted, k')
        → coming k' < length live + k.spare
    broken [] k k' e = absurd cc
    broken (x ∷ xs) k k' e = absurd cc

    left_alone :
        (live : List ℕ) (k k' : Machine)
        → wait_first live (record k { live = live }) ≡ (Reaped.no_child, k')
        → coming k' ≤ length live + k.spare
    left_alone [] k k' e = let kept = ap (λ (r : Reaped × Machine). coming r.1) e in omega arith
    left_alone (x ∷ xs) k k' e = absurd cc

    forked : (spare : ℕ) (k : Machine) → k.spare ≡ spare → coming (fork_one spare k).1 ≤ coming k
    forked zero k e = omega arith
    forked (suc n) k e = omega arith

machine-StopLaw :
    StopLaw machine 2 live_count told_count machine-FamilyLaw coming machine-ComingLaw
      (λ k. Unit {0})
machine-StopLaw = record {
  stays = λ k h. ground arith;
  calms = λ k h. tt;
  undisturbed = λ k h. reports k.live k;
  waits_calm = λ pid k k' h e. tt;
  kills_calm = λ pid k h. tt;
}
  where
    reports : (live : List ℕ) (k : Machine) → (wait_first live k).0 ≢ Reaped.interrupted
    reports [] k = λ e. absurd cc
    reports (x ∷ xs) k = λ e. absurd cc

abbrev first_state : Machine
first_state = record { live = []; spare = 6; killed = []; rounds = 3 }

run_pool-Ends_example :
    Ends machine 2 live_count told_count machine-FamilyLaw coming machine-ComingLaw
      (λ k. Unit {0})
      machine-StopLaw
      (Failed machine 2 live_count told_count machine-FamilyLaw coming machine-ComingLaw
        (λ k. Unit {0})
        machine-StopLaw
        (machine.fork first_state))
      (run_pool machine 2 7 first_state)
run_pool-Ends_example =
    run_pool-Ends machine 2 live_count told_count machine-FamilyLaw coming machine-ComingLaw
      (λ k. Unit {0}) machine-StopLaw 7 first_state (omega arith)

-- ===== src/Main/Supervisor/Coming.antt =====
-- The supervisor of src/main.cpp waits only as often as its children end and signals come.
use cometvisu_knxd_fcgi.Main.Processes.{Processes, Reaped, Semaphore}
use cometvisu_knxd_fcgi.Main.Supervisor.{
  Family, RestartBackoff, on_death, new_backoff, is_pid, find_worker, after_getvalue,
  restore_semaphore, spawned, respawn, restart_reader, restart_worker, restart_found, child_died,
  kill_child, kill_workers, start_workers, after_fork, cons_worker, worker_delays, cons_delay,
  with_delays,
}
use cometvisu_knxd_fcgi.Prelude.{
  ℕ, zero, suc, ◌*◌, ◌≤◌, ◌<◌, ◌≡◌, inl, inr, Bool, Option, none, some, List, [], ◌∷◌, arith,
  Bool-cases, get_or,
}

module _ {P : Type 0} (sys : Processes P) (coming : P → ℕ) where
  -- `coming` bounds the children that are still to end and the signals that are still to interrupt; no
  -- call makes it more, and a `wait` that returns one of them makes it less.
  pub record ComingLaw : Type 0 where
    pub reaps : (pid : ℕ) (p p' : P) → sys.wait p ≡ (Reaped.child pid, p') → coming p' < coming p
    pub breaks : (p p' : P) → sys.wait p ≡ (Reaped.interrupted, p') → coming p' < coming p
    pub ends : (p p' : P) → sys.wait p ≡ (Reaped.no_child, p') → coming p' ≤ coming p
    pub forks : (p : P) → coming (sys.fork p).1 ≤ coming p
    pub kills : (pid : ℕ) (p : P) → coming (sys.kill pid p) ≤ coming p
    pub flags : (p : P) → coming (sys.shutdown_requested p).1 ≤ coming p
    pub sleeps : (n : ℕ) (p : P) → coming (sys.usleep n p) ≤ coming p
    pub clocks : (p : P) → coming (sys.now p).1 ≤ coming p
    pub reads : (sem : Semaphore) (p : P) → coming (sys.sem_getvalue sem p).1 ≤ coming p
    pub posts : (sem : Semaphore) (p : P) → coming (sys.sem_post sem p) ≤ coming p

  module _ (num_workers : ℕ) (law : ComingLaw) where
    after_getvalue-coming :
        (sem : Semaphore) (value : Option ℕ) (p : P)
        → coming (after_getvalue sys num_workers sem (value, p)) ≤ coming p
    after_getvalue-coming sem none p = omega arith
    after_getvalue-coming sem (some value) p = let h = law.posts sem p in ground arith

    restore_semaphore-coming :
        (sem : Semaphore) (p : P) → coming (restore_semaphore sys num_workers sem p) ≤ coming p
    unfolding restore_semaphore
    restore_semaphore-coming sem p =
        let first = law.reads sem p in
        let (value, p') = sys.sem_getvalue sem p in
        let later = after_getvalue-coming sem value p' in omega arith

    spawned-coming :
        (b : RestartBackoff) (pid : Option ℕ) (p : P)
        → coming (spawned sys num_workers b (pid, p)).1 ≤ coming p
    spawned-coming b none p = omega arith
    spawned-coming b (some pid) p = law.clocks p

    respawn-coming :
        (b : RestartBackoff) (p : P) → coming (respawn sys num_workers b p).1 ≤ coming p
    unfolding respawn
    respawn-coming b p =
        let (now, p1) = sys.now p in
        let (delay_ms, b') = on_death now b in
        let p2 = sys.usleep (delay_ms * 1000) p1 in
        let (pid, p3) = sys.fork p2 in
        let h1 = law.clocks p in
        let h2 = law.sleeps (delay_ms * 1000) p1 in
        let h3 = law.forks p2 in let h4 = spawned-coming b' pid p3 in omega arith

    restart_found-coming :
        (found : Option ℕ) (f : Family P)
        → coming (restart_found sys num_workers found f).world ≤ coming f.world
    unfolding restart_worker
    restart_found-coming none f = omega arith
    restart_found-coming (some i) f =
        let p = restore_semaphore sys num_workers Semaphore.concurrency f.world in
        let p' = restore_semaphore sys num_workers Semaphore.load_shed p in
        let h1 = restore_semaphore-coming Semaphore.concurrency f.world in
        let h2 = restore_semaphore-coming Semaphore.load_shed p in
        let h3 = respawn-coming (get_or f.children.worker_backoff i (new_backoff 0)) p' in
        omega arith

    pub child_died-coming :
        (waited : ℕ) (f : Family P)
        → coming (child_died sys num_workers waited f).world ≤ coming f.world
    unfolding child_died restart_reader
    child_died-coming waited f =
        let reader = respawn-coming f.children.reader_backoff f.world in
        let worker = restart_found-coming (find_worker waited f.children.workers) f in
        elim (Bool-cases (is_pid waited f.children.reader)) [
          | inl e ↦ rw e reader
          | inr e ↦ rw e worker
        ]

    kill_child-coming :
        (pid : Option ℕ) (p : P) → coming (kill_child sys num_workers pid p) ≤ coming p
    kill_child-coming none p = omega arith
    kill_child-coming (some pid) p = law.kills pid p

    kill_workers-coming :
        (ws : List (Option ℕ)) (p : P) → coming (kill_workers sys num_workers ws p) ≤ coming p
    unfolding kill_workers
    kill_workers-coming [] p = omega arith
    kill_workers-coming (pid ∷ ws) p =
        let first = kill_child-coming pid p in
        let later = kill_workers-coming ws (kill_child sys num_workers pid p) in omega arith

    pub kill_children-coming :
        (reader : Option ℕ) (ws : List (Option ℕ)) (p : P)
        → coming (kill_workers sys num_workers ws (kill_child sys num_workers reader p)) ≤ coming p
    kill_children-coming reader ws p =
        let first = kill_child-coming reader p in
        let later = kill_workers-coming ws (kill_child sys num_workers reader p) in omega arith

    cons_worker-coming :
        (pid : ℕ) (p : P) (started : (Bool × List (Option ℕ)) × P)
        → coming started.1 ≤ coming p
        → coming (cons_worker sys num_workers pid started).1 ≤ coming p
    cons_worker-coming pid p ((ok, pids), q) h = h

    after_fork-coming :
        (next : P → (Bool × List (Option ℕ)) × P) (left : ℕ) (p : P) (forked : Option ℕ × P)
        → ((q : P) → coming (next q).1 ≤ coming q)
        → coming forked.1 ≤ coming p
        → coming (after_fork sys num_workers next left forked).1 ≤ coming p
    after_fork-coming next left p (none, p') h less = less
    after_fork-coming next left p (some pid, p') h less =
        cons_worker-coming pid p (next p') (let k = h p' in omega arith)

    pub start_workers-coming :
        (left : ℕ) (p : P) → coming (start_workers sys num_workers left p).1 ≤ coming p
    unfolding start_workers
    start_workers-coming zero p = omega arith
    start_workers-coming (suc left) p =
        after_fork-coming (start_workers sys num_workers left) left p (sys.fork p)
          (start_workers-coming left) (law.forks p)

    cons_delay-coming :
        (b : RestartBackoff) (p : P) (later : List RestartBackoff × P)
        → coming later.1 ≤ coming p
        → coming (cons_delay sys num_workers b later).1 ≤ coming p
    cons_delay-coming b p (bs, q) h = h

    worker_delays-coming : (n : ℕ) (p : P) → coming (worker_delays sys num_workers n p).1 ≤ coming p
    unfolding worker_delays
    worker_delays-coming zero p = omega arith
    worker_delays-coming (suc n) p =
        let (now, q) = sys.now p in
        let first = law.clocks p in
        let later = worker_delays-coming n q in
        cons_delay-coming (new_backoff now) p (worker_delays sys num_workers n q) (omega arith)

    pub with_delays-coming :
        (reader : Option ℕ) (ws : List (Option ℕ)) (p : P)
        → coming (with_delays sys num_workers reader ws (sys.now p)).world ≤ coming p
    with_delays-coming reader ws p =
        let first = law.clocks p in
        let later = worker_delays-coming num_workers (sys.now p).1 in omega arith

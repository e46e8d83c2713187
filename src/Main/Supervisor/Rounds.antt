-- ===== src/Main/Supervisor/Rounds.antt =====
-- What the loop of the supervisor in src/main.cpp keeps, from its start to the signals at its end.
use mathlib.Core.Option.{some-injective}
use cometvisu_knxd_fcgi.Main.Processes.{Processes, Reaped}
use cometvisu_knxd_fcgi.Main.Supervisor.{
  Children, Family, RestartBackoff, child_died, supervise, supervise_round, after_child, after_flag,
  start_workers, after_fork, cons_worker, worker_delays, cons_delay, with_delays, new_backoff,
  kill_child, kill_workers, replicate,
}
use cometvisu_knxd_fcgi.Main.Supervisor.Tracking.{
  FamilyLaw, IsTracked, holds, slots, same, worker_slots, child_died-IsTracked,
}
use cometvisu_knxd_fcgi.Prelude.{
  ℕ, ◌+◌, ◌≡◌, Bool, true, false, Option, some, zero, suc, refl, sym, ap, ◌∙◌, ◌⊎◌, inl, inr, none,
  List, arith, subst, replicate, [], ◌∷◌, ◌≤◌,
}

module _ {P : Type 0} (sys : Processes P) (num_workers : ℕ) (alive told : ℕ → P → ℕ)
    (law : FamilyLaw sys alive told) where
  -- Each child has its slot, and so has at most one that was waited for when the loop ended.
  unfoldable pub IsKnown : Family P → Type 0
  IsKnown f =
      ((m : ℕ) → slots m f.children ≡ alive m f.world)
      ⊎ ((waited : ℕ) × ((m : ℕ) → slots m f.children ≡ alive m f.world + same m waited))

  abbrev Keeps : (Family P → Option (Family P)) → Type 0
  Keeps next =
      (f f' : Family P) → IsTracked sys num_workers alive told law f → next f ≡ some f' → IsKnown f'

  known : (f f' : Family P) → IsKnown f → some f ≡ some f' → IsKnown f'
  known f f' h e = subst IsKnown (some-injective f f' e) h

  after_flag-IsKnown :
      (next : Family P → Option (Family P)) (waited : ℕ) (c : Children) (answer : Bool × P)
      (f' : Family P)
      → Keeps next
      → ((m : ℕ) → slots m c ≡ alive m answer.1 + same m waited)
      → after_flag sys num_workers next waited c answer ≡ some f'
      → IsKnown f'
  unfolding IsKnown
  after_flag-IsKnown next waited c (true, p) f' keeps h e =
      known (record { children = c; world = p }) f' (inr (waited, h)) e
  after_flag-IsKnown next waited c (false, p) f' keeps h e =
      keeps (child_died sys num_workers waited (record { children = c; world = p })) f'
        (child_died-IsTracked sys num_workers alive told law waited
          (record { children = c; world = p }) h)
        e

  after_child-IsKnown :
      (next : Family P → Option (Family P)) (c : Children) (p : P) (waited : Reaped × P)
      (f' : Family P)
      → Keeps next
      → ((m : ℕ) → slots m c ≡ alive m p)
      → sys.wait p ≡ waited
      → after_child sys num_workers next c waited ≡ some f'
      → IsKnown f'
  unfolding IsKnown
  after_child-IsKnown next c p (Reaped.child pid, p') f' keeps h w e =
      after_flag-IsKnown next pid c (sys.shutdown_requested p') f' keeps
        (λ m. h m ∙ law.reaps m pid p p' w ∙ ap (λ (n : ℕ). n + same m pid) (sym (law.flags m p')))
        e
  after_child-IsKnown next c p (Reaped.interrupted, p') f' keeps h w e =
      keeps (record { children = c; world = p' }) f' (λ m. h m ∙ sym (law.interrupts m p p' w)) e
  after_child-IsKnown next c p (Reaped.no_child, p') f' keeps h w e =
      known (record { children = c; world = p' }) f' (inl (λ m. h m ∙ sym (law.ends m p p' w))) e

  supervise_round-IsKnown :
      (next : Family P → Option (Family P)) (c : Children) (answer : Bool × P) (f' : Family P)
      → Keeps next
      → ((m : ℕ) → slots m c ≡ alive m answer.1)
      → supervise_round sys num_workers next c answer ≡ some f'
      → IsKnown f'
  unfolding IsKnown
  supervise_round-IsKnown next c (true, p) f' keeps h e =
      known (record { children = c; world = p }) f' (inl h) e
  supervise_round-IsKnown next c (false, p) f' keeps h e =
      after_child-IsKnown next c p (sys.wait p) f' keeps h refl e

  pub supervise-IsKnown : (fuel : ℕ) → Keeps (supervise sys num_workers fuel)
  unfolding supervise
  supervise-IsKnown zero f f' h e = ground arith
  supervise-IsKnown (suc fuel) f f' h e =
      supervise_round-IsKnown (supervise sys num_workers fuel) f.children
        (sys.shutdown_requested f.world) f' (supervise-IsKnown fuel)
        (λ m. h m ∙ sym (law.flags m f.world)) e

  -- The start.
  abbrev Starts : ℕ → P → (Bool × List (Option ℕ)) × P → Type 0
  Starts m p started = alive m started.1 ≡ alive m p + worker_slots m started.0.1

  cons_worker-slots :
      (m pid : ℕ) (p p' : P) (started : (Bool × List (Option ℕ)) × P)
      → alive m p' ≡ alive m p + same m pid
      → Starts m p' started
      → Starts m p (cons_worker sys num_workers pid started)
  unfolding worker_slots
  cons_worker-slots m pid p p' ((ok, pids), q) g h = omega arith

  worker_slots-replicate : (m left : ℕ) → worker_slots m (replicate left none) ≡ 0
  unfolding worker_slots
  worker_slots-replicate m zero = refl
  worker_slots-replicate m (suc left) = let ih = worker_slots-replicate m left in omega arith

  after_fork-slots :
      (m left : ℕ) (p : P) (next : P → (Bool × List (Option ℕ)) × P) (forked : Option ℕ × P)
      → ((q : P) → Starts m q (next q))
      → alive m forked.1 ≡ alive m p + holds m forked.0
      → Starts m p (after_fork sys num_workers next left forked)
  after_fork-slots m left p next (none, p') starts h =
      let empty = worker_slots-replicate m (suc left) in omega arith
  after_fork-slots m left p next (some pid, p') starts h =
      cons_worker-slots m pid p p' (next p') h (starts p')

  -- The workers that are started are the slots, also where a fork fails.
  pub start_workers-slots :
      (m left : ℕ) (p : P)
      → alive m (start_workers sys num_workers left p).1
        ≡ alive m p + worker_slots m (start_workers sys num_workers left p).0.1
  unfolding start_workers worker_slots
  start_workers-slots m zero p = omega arith
  start_workers-slots m (suc left) p =
      after_fork-slots m left p (start_workers sys num_workers left) (sys.fork p)
        (λ q. start_workers-slots m left q) (law.forks m p)

  cons_delay-alive :
      (m : ℕ) (b : RestartBackoff) (later : List RestartBackoff × P)
      → alive m (cons_delay sys num_workers b later).1 ≡ alive m later.1
  cons_delay-alive m b (bs, p) = refl

  worker_delays-alive :
      (m n : ℕ) (p : P) → alive m (worker_delays sys num_workers n p).1 ≡ alive m p
  unfolding worker_delays
  worker_delays-alive m zero p = refl
  worker_delays-alive m (suc n) p =
      let q = (sys.now p).1 in
      cons_delay-alive m (new_backoff (sys.now p).0) (worker_delays sys num_workers n q)
      ∙ worker_delays-alive m n q
      ∙ law.clocks m p

  -- The family that the loop starts with is tracked.
  pub with_delays-IsTracked :
      (reader : Option ℕ) (workers : List (Option ℕ)) (p : P)
      → ((m : ℕ) → alive m p ≡ holds m reader + worker_slots m workers)
      → IsTracked sys num_workers alive told law
          (with_delays sys num_workers reader workers (sys.now p))
  with_delays-IsTracked reader workers p h m =
      let later = worker_delays-alive m num_workers (sys.now p).1 in
      let start = law.clocks m p in let counted = h m in omega arith

  -- The end.
  kill_child-told :
      (m : ℕ) (pid : Option ℕ) (p : P)
      → told m (kill_child sys num_workers pid p) ≡ told m p + holds m pid
  kill_child-told m none p = omega arith
  kill_child-told m (some pid) p = law.signals m pid p

  pub kill_workers-told :
      (m : ℕ) (ws : List (Option ℕ)) (p : P)
      → told m (kill_workers sys num_workers ws p) ≡ told m p + worker_slots m ws
  unfolding kill_workers worker_slots
  kill_workers-told m [] p = omega arith
  kill_workers-told m (pid ∷ ws) p =
      let first = kill_child-told m pid p in
      let later = kill_workers-told m ws (kill_child sys num_workers pid p) in omega arith

  pub kill_children-told :
      (m : ℕ) (c : Children) (p : P)
      → told m (kill_workers sys num_workers c.workers (kill_child sys num_workers c.reader p))
        ≡ told m p + slots m c
  kill_children-told m c p =
      let first = kill_child-told m c.reader p in
      let later = kill_workers-told m c.workers (kill_child sys num_workers c.reader p) in
      omega arith

  -- The family that the loop starts with, in a world without children.
  abbrev pub first_family : P → Family P
  first_family p =
      let (reader, p1) = sys.fork p in
      let ((ok, workers), p2) = start_workers sys num_workers num_workers p1 in
      with_delays sys num_workers reader workers (sys.now p2)

  pub first_family-IsTracked :
      (p : P)
      → ((m : ℕ) → alive m p ≡ 0)
      → IsTracked sys num_workers alive told law (first_family p)
  first_family-IsTracked p empty =
      let (reader, p1) = sys.fork p in
      let ((ok, workers), p2) = start_workers sys num_workers num_workers p1 in
      with_delays-IsTracked reader workers p2 (λ m.
        let started = start_workers-slots m num_workers p1 in
        let forked = law.forks m p in let none_before = empty m in omega arith)

  -- The supervisor starts the cache reader and the workers in a world without children. However
  -- they die and are started again, and also where a fork fails: when the loop ends, the signals
  -- of the shutdown reach every child that runs, with one signal at least for each.
  pub supervise-told :
      (fuel : ℕ) (p : P) (f : Family P) (m : ℕ)
      → ((n : ℕ) → alive n p ≡ 0)
      → supervise sys num_workers fuel (first_family p) ≡ some f
      → alive m f.world + told m f.world
        ≤ told m (
            kill_workers sys num_workers f.children.workers
              (kill_child sys num_workers f.children.reader f.world))
  unfolding IsKnown
  supervise-told fuel p f m empty e =
      let all = kill_children-told m f.children f.world in
      elim (supervise-IsKnown fuel (first_family p) f (first_family-IsTracked p empty) e) [
        | inl k ↦ let h = k m in omega arith
        | inr (waited, k) ↦ let h = k m in omega arith
      ]

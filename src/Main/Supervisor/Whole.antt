-- ===== src/Main/Supervisor/Whole.antt =====
-- The slots of the supervisor in src/main.cpp over its rounds: which of them have a child, and their
-- delays.
use mathlib.Core.Option.{some-injective}
use cometvisu_knxd_fcgi.Main.Processes.{Processes, Reaped}
use cometvisu_knxd_fcgi.Main.Supervisor.{
  Children, Family, RestartBackoff, on_spawn, on_death, new_backoff, is_pid, find_worker, spawned,
  respawn, restart_reader, restart_worker, restart_found, child_died, supervise, supervise_round,
  after_child, after_flag, set,
}
use cometvisu_knxd_fcgi.Main.Supervisor.Tracking.{FamilyLaw, IsTracked}
use cometvisu_knxd_fcgi.Main.Supervisor.Rounds.{IsKnown, supervise-IsKnown}
use cometvisu_knxd_fcgi.Prelude.{
  ℕ, zero, suc, ◌≤◌, ◌≡◌, ◌≢◌, inl, inr, Bool, true, false, Option, none, some, List, [], ◌∷◌,
  arith, length, All, Option-cases, get_or, subst, set, ◌∙◌, length-set, if◌then◌else◌,
}

-- A slot with a child.
abbrev pub IsHeld : Option ℕ → Type 0
IsHeld pid = pid ≢ none

abbrev pub IsPatient : RestartBackoff → Type 0
IsPatient b = (100 ≤ b.delay_ms) × (b.delay_ms ≤ 30000)

pub on_death-IsPatient : (now : ℕ) (b : RestartBackoff) → IsPatient b → IsPatient (on_death now b).1
unfolding on_death
on_death-IsPatient now b h = ground arith

-- A delay of a restart.
pub on_death-bounds :
    (now : ℕ) (b : RestartBackoff)
    → IsPatient b
    → (100 ≤ (on_death now b).0) × ((on_death now b).0 ≤ 30000)
unfolding on_death
on_death-bounds now b h = ground arith

module _ {A : Type 0} (Q : A → Type 0) where
  All-set : (xs : List A) (i : ℕ) (v : A) → All Q xs → Q v → All Q (set xs i v)
  All-set [] i v h q = h
  All-set (x ∷ xs) zero v h q = (q, h.1)
  All-set (x ∷ xs) (suc i) v h q = (h.0, All-set xs i v h.1 q)

  All-get_or : (xs : List A) (i : ℕ) (d : A) → All Q xs → Q d → Q (get_or xs i d)
  All-get_or [] i d h q = q
  All-get_or (x ∷ xs) zero d h q = h.0
  All-get_or (x ∷ xs) (suc i) d h q = All-get_or xs i d h.1 q

module _ {P : Type 0} (sys : Processes P) (num_workers : ℕ) where
  -- What each restart keeps, the loop keeps.
  module _ (Kept : Children → Type 0)
      (step : (waited : ℕ) (f : Family P)
        → Kept f.children
        → Kept (child_died sys num_workers waited f).children) where
    kept : (f f' : Family P) → Kept f.children → some f ≡ some f' → Kept f'.children
    kept f f' h e = subst (λ (g : Family P). Kept g.children) (some-injective f f' e) h

    after_flag-Kept :
        (next : Family P → Option (Family P)) (waited : ℕ) (c : Children) (answer : Bool × P)
        (f' : Family P)
        → ((f : Family P) → Kept f.children → next f ≡ some f' → Kept f'.children)
        → Kept c
        → after_flag sys num_workers next waited c answer ≡ some f'
        → Kept f'.children
    after_flag-Kept next waited c (true, p) f' keeps h e =
        kept (record { children = c; world = p }) f' h e
    after_flag-Kept next waited c (false, p) f' keeps h e =
        keeps (child_died sys num_workers waited (record { children = c; world = p }))
          (step waited (record { children = c; world = p }) h) e

    after_child-Kept :
        (next : Family P → Option (Family P)) (c : Children) (waited : Reaped × P) (f' : Family P)
        → ((f : Family P) → Kept f.children → next f ≡ some f' → Kept f'.children)
        → Kept c
        → after_child sys num_workers next c waited ≡ some f'
        → Kept f'.children
    after_child-Kept next c (Reaped.child pid, p) f' keeps h e =
        after_flag-Kept next pid c (sys.shutdown_requested p) f' keeps h e
    after_child-Kept next c (Reaped.interrupted, p) f' keeps h e =
        keeps (record { children = c; world = p }) h e
    after_child-Kept next c (Reaped.no_child, p) f' keeps h e =
        kept (record { children = c; world = p }) f' h e

    supervise_round-Kept :
        (next : Family P → Option (Family P)) (c : Children) (answer : Bool × P) (f' : Family P)
        → ((f : Family P) → Kept f.children → next f ≡ some f' → Kept f'.children)
        → Kept c
        → supervise_round sys num_workers next c answer ≡ some f'
        → Kept f'.children
    supervise_round-Kept next c (true, p) f' keeps h e =
        kept (record { children = c; world = p }) f' h e
    supervise_round-Kept next c (false, p) f' keeps h e =
        after_child-Kept next c (sys.wait p) f' keeps h e

    pub supervise-Kept :
        (fuel : ℕ) (f f' : Family P)
        → Kept f.children
        → supervise sys num_workers fuel f ≡ some f'
        → Kept f'.children
    unfolding supervise
    supervise-Kept zero f f' h e = ground arith
    supervise-Kept (suc fuel) f f' h e =
        supervise_round-Kept (supervise sys num_workers fuel) f.children
          (sys.shutdown_requested f.world) f' (λ g k. supervise-Kept fuel g f' k) h e

  -- A reader that could not be started again.
  abbrev pub IsLost : Children → Type 0
  IsLost c = c.reader ≡ none

  child_died-IsLost :
      (waited : ℕ) (f : Family P)
      → IsLost f.children
      → IsLost (child_died sys num_workers waited f).children
  unfolding child_died is_pid restart_worker
  child_died-IsLost waited f h = elim (Option-cases (find_worker waited f.children.workers)) [
    | inl e ↦ ground arith
    | inr (i, e) ↦ ground arith
  ]

  -- A cache reader whose restart failed is never started again: its slot is empty as long as the
  -- loop runs.
  pub supervise-IsLost :
      (fuel : ℕ) (f f' : Family P)
      → f.children.reader ≡ none
      → supervise sys num_workers fuel f ≡ some f'
      → f'.children.reader ≡ none
  supervise-IsLost = supervise-Kept IsLost child_died-IsLost

  -- Every slot has a child, and every delay is in its bounds.
  pub record IsWhole (c : Children) : Type 0 where
    pub reader_held : IsHeld c.reader
    pub reader_patient : IsPatient c.reader_backoff
    pub workers_held : All IsHeld c.workers
    pub workers_patient : All IsPatient c.worker_backoff
    pub workers_count : length c.workers ≡ num_workers
    pub delays_count : length c.worker_backoff ≡ num_workers

  module _ (forks : (p : P) → IsHeld (sys.fork p).0) where
    spawned-IsHeld :
        (b : RestartBackoff) (forked : Option ℕ × P)
        → IsHeld forked.0
        → IsHeld (spawned sys num_workers b forked).0.0
    spawned-IsHeld b (none, p) h = h
    spawned-IsHeld b (some pid, p) h = h

    spawned-IsPatient :
        (b : RestartBackoff) (forked : Option ℕ × P)
        → IsPatient b
        → IsPatient (spawned sys num_workers b forked).0.1
    unfolding on_spawn
    spawned-IsPatient b (none, p) h = h
    spawned-IsPatient b (some pid, p) h = h

    respawn-IsHeld : (b : RestartBackoff) (p : P) → IsHeld (respawn sys num_workers b p).0.0
    unfolding respawn
    respawn-IsHeld b p = spawned-IsHeld _ (sys.fork _) (forks _)

    respawn-IsPatient :
        (b : RestartBackoff) (p : P) → IsPatient b → IsPatient (respawn sys num_workers b p).0.1
    unfolding respawn
    respawn-IsPatient b p h =
        spawned-IsPatient _ (sys.fork _) (on_death-IsPatient (sys.now p).0 b h)

    restart_reader-IsWhole :
        (f : Family P) → IsWhole f.children → IsWhole (restart_reader sys num_workers f).children
    unfolding restart_reader
    restart_reader-IsWhole f h = record {
      reader_held = respawn-IsHeld f.children.reader_backoff f.world;
      reader_patient = respawn-IsPatient f.children.reader_backoff f.world h.reader_patient;
      workers_held = h.workers_held;
      workers_patient = h.workers_patient;
      workers_count = h.workers_count;
      delays_count = h.delays_count;
    }

    restart_worker-IsWhole :
        (i : ℕ) (f : Family P)
        → IsWhole f.children
        → IsWhole (restart_worker sys num_workers i f).children
    unfolding restart_worker
    restart_worker-IsWhole i f h =
        let b = get_or f.children.worker_backoff i (new_backoff 0) in
        let patient =
          All-get_or IsPatient f.children.worker_backoff i (new_backoff 0) h.workers_patient
            (omega arith, omega arith) in
        record {
          reader_held = h.reader_held;
          reader_patient = h.reader_patient;
          workers_held = All-set IsHeld f.children.workers i _ h.workers_held (respawn-IsHeld b _);
          workers_patient =
              All-set IsPatient f.children.worker_backoff i _ h.workers_patient
                (respawn-IsPatient b _ patient);
          workers_count = length-set f.children.workers i _ ∙ h.workers_count;
          delays_count = length-set f.children.worker_backoff i _ ∙ h.delays_count;
        }

    restart_found-IsWhole :
        (found : Option ℕ) (f : Family P)
        → IsWhole f.children
        → IsWhole (restart_found sys num_workers found f).children
    restart_found-IsWhole none f h = h
    restart_found-IsWhole (some i) f h = restart_worker-IsWhole i f h

    either-IsWhole :
        (b : Bool) (f g : Family P)
        → IsWhole f.children
        → IsWhole g.children
        → IsWhole (if b then f else g).children
    either-IsWhole true f g h k = h
    either-IsWhole false f g h k = k

    pub child_died-IsWhole :
        (waited : ℕ) (f : Family P)
        → IsWhole f.children
        → IsWhole (child_died sys num_workers waited f).children
    unfolding child_died
    child_died-IsWhole waited f h =
        either-IsWhole (is_pid waited f.children.reader) (restart_reader sys num_workers f)
          (restart_found sys num_workers (find_worker waited f.children.workers) f)
          (restart_reader-IsWhole f h)
          (restart_found-IsWhole (find_worker waited f.children.workers) f h)

    kept-IsWhole :
        (fuel : ℕ) (f f' : Family P)
        → IsWhole f.children
        → supervise sys num_workers fuel f ≡ some f'
        → IsWhole f'.children
    kept-IsWhole = supervise-Kept IsWhole child_died-IsWhole

    module _ (alive told : ℕ → P → ℕ) (law : FamilyLaw sys alive told) where
      -- Where every fork succeeds, the loop that starts with a reader and num_workers workers, each of them
      -- a child that runs and none other running, all with delays from 100 to 30000 ms, ends with as many
      -- slots, each with a child and a delay in these bounds. The slots hold each process number as often as
      -- a child with that number runs, except that one slot may still hold a child that was waited for when
      -- the loop ended.
      pub supervise-IsWhole :
          (fuel : ℕ) (f f' : Family P)
          → IsWhole f.children
          → IsTracked sys num_workers alive told law f
          → supervise sys num_workers fuel f ≡ some f'
          → IsWhole f'.children × IsKnown sys num_workers alive told law f'
      supervise-IsWhole fuel f f' whole tracked e = (
        kept-IsWhole fuel f f' whole e,
        supervise-IsKnown sys num_workers alive told law fuel f f' tracked e,
      )

-- ===== src/Main/Supervisor/Tracking.antt =====
-- The supervisor of src/main.cpp knows its children: each child that runs has exactly one slot.
use cometvisu_knxd_fcgi.Main.Processes.{Processes, Reaped, Semaphore}
use cometvisu_knxd_fcgi.Main.Supervisor.{
  Children, Family, RestartBackoff, is_pid, find_worker, set, after_getvalue, restore_semaphore,
  spawned, respawn, on_death, restart_reader, restart_worker, child_died, new_backoff,
}
use cometvisu_knxd_fcgi.Prelude.{
  ℕ, ◌+◌, ◌≡◌, refl, inl, inr, Option, none, some, List, [], ◌∷◌, arith, ◌==◌, if◌then◌else◌,
  Option-cases, set, ◌∙◌, ◌*◌, sym, ap, true, Bool-cases, get_or, false,
}

-- 1 for the same pid.
abbrev pub same : ℕ → ℕ → ℕ
same m pid = if m == pid then 1 else 0

-- How many slots hold a pid.
abbrev pub holds : ℕ → Option ℕ → ℕ
holds m none = 0
holds m (some pid) = same m pid

unfoldable pub worker_slots : ℕ → List (Option ℕ) → ℕ
worker_slots m [] = 0
worker_slots m (pid ∷ pids) = holds m pid + worker_slots m pids

abbrev pub slots : ℕ → Children → ℕ
slots m c = holds m c.reader + worker_slots m c.workers

-- The children of the system: `alive` counts those with a pid that were not waited for, and `told` the
-- signals sent to it.
pub record FamilyLaw {P : Type 0} (sys : Processes P) (alive told : ℕ → P → ℕ) : Type 0 where
  pub forks : (m : ℕ) (p : P) → alive m (sys.fork p).1 ≡ alive m p + holds m (sys.fork p).0
  pub reaps :
      (m pid : ℕ) (p p' : P)
      → sys.wait p ≡ (Reaped.child pid, p')
      → alive m p ≡ alive m p' + same m pid
  pub interrupts :
      (m : ℕ) (p p' : P) → sys.wait p ≡ (Reaped.interrupted, p') → alive m p' ≡ alive m p
  pub ends : (m : ℕ) (p p' : P) → sys.wait p ≡ (Reaped.no_child, p') → alive m p' ≡ alive m p
  pub childless : (m : ℕ) (p p' : P) → sys.wait p ≡ (Reaped.no_child, p') → alive m p ≡ 0
  pub kills : (m pid : ℕ) (p : P) → alive m (sys.kill pid p) ≡ alive m p
  pub flags : (m : ℕ) (p : P) → alive m (sys.shutdown_requested p).1 ≡ alive m p
  pub sleeps : (m n : ℕ) (p : P) → alive m (sys.usleep n p) ≡ alive m p
  pub clocks : (m : ℕ) (p : P) → alive m (sys.now p).1 ≡ alive m p
  pub reads : (m : ℕ) (sem : Semaphore) (p : P) → alive m (sys.sem_getvalue sem p).1 ≡ alive m p
  pub posts : (m : ℕ) (sem : Semaphore) (p : P) → alive m (sys.sem_post sem p) ≡ alive m p
  pub signals : (m pid : ℕ) (p : P) → told m (sys.kill pid p) ≡ told m p + same m pid

-- A pid that is found leaves its slot to the new one.
pub find_worker-set :
    (m waited i : ℕ) (pid : Option ℕ) (ws : List (Option ℕ))
    → find_worker waited ws ≡ some i
    → worker_slots m (set ws i pid) + same m waited ≡ worker_slots m ws + holds m pid
unfolding find_worker worker_slots is_pid
find_worker-set m waited i pid [] h = ground arith
find_worker-set m waited i pid (none ∷ ws) h = elim (Option-cases (find_worker waited ws)) [
  | inl e ↦ ground arith
  | inr (j, e) ↦ let ih = find_worker-set m waited j pid ws e in ground arith
]
find_worker-set m waited i pid (some w ∷ ws) h = elim (Option-cases (find_worker waited ws)) [
  | inl e ↦ ground arith
  | inr (j, e) ↦ let ih = find_worker-set m waited j pid ws e in ground arith
]

-- A pid that is not found is in no slot.
pub find_worker-none :
    (waited : ℕ) (ws : List (Option ℕ)) → find_worker waited ws ≡ none → worker_slots waited ws ≡ 0
unfolding find_worker worker_slots is_pid
find_worker-none waited [] h = refl
find_worker-none waited (none ∷ ws) h = elim (Option-cases (find_worker waited ws)) [
  | inl e ↦ let ih = find_worker-none waited ws e in ground arith
  | inr (j, e) ↦ ground arith
]
find_worker-none waited (some w ∷ ws) h = elim (Option-cases (find_worker waited ws)) [
  | inl e ↦ let ih = find_worker-none waited ws e in ground arith
  | inr (j, e) ↦ ground arith
]

holds-is_pid : (waited : ℕ) (pid : Option ℕ) → is_pid waited pid ≡ false → holds waited pid ≡ 0
unfolding is_pid
holds-is_pid waited none h = refl
holds-is_pid waited (some pid) h = ground arith

module _ {P : Type 0} (sys : Processes P) (num_workers : ℕ) (alive told : ℕ → P → ℕ)
    (law : FamilyLaw sys alive told) where
  -- Each child that runs has exactly one slot, and no slot holds a pid without a child.
  abbrev pub IsTracked : Family P → Type 0
  IsTracked f = (m : ℕ) → slots m f.children ≡ alive m f.world

  after_getvalue-alive :
      (m : ℕ) (sem : Semaphore) (value : Option ℕ) (p : P)
      → alive m (after_getvalue sys num_workers sem (value, p)) ≡ alive m p
  after_getvalue-alive m sem none p = refl
  after_getvalue-alive m sem (some value) p = let h = law.posts m sem p in ground arith

  restore_semaphore-alive :
      (m : ℕ) (sem : Semaphore) (p : P)
      → alive m (restore_semaphore sys num_workers sem p) ≡ alive m p
  unfolding restore_semaphore
  restore_semaphore-alive m sem p =
      after_getvalue-alive m sem (sys.sem_getvalue sem p).0 (sys.sem_getvalue sem p).1
      ∙ law.reads m sem p

  spawned-alive :
      (m : ℕ) (b : RestartBackoff) (pid : Option ℕ) (p : P)
      → alive m (spawned sys num_workers b (pid, p)).1 ≡ alive m p
  spawned-alive m b none p = refl
  spawned-alive m b (some pid) p = law.clocks m p

  spawned-pid :
      (b : RestartBackoff) (pid : Option ℕ) (p : P) → (spawned sys num_workers b (pid, p)).0.0 ≡ pid
  spawned-pid b none p = refl
  spawned-pid b (some pid) p = refl

  started-alive :
      (m : ℕ) (b : RestartBackoff) (p : P)
      → alive m (spawned sys num_workers b (sys.fork p)).1
        ≡ alive m p + holds m (spawned sys num_workers b (sys.fork p)).0.0
  started-alive m b p =
      spawned-alive m b (sys.fork p).0 (sys.fork p).1
      ∙ law.forks m p
      ∙ ap (λ (pid : Option ℕ). alive m p + holds m pid)
          (sym (spawned-pid b (sys.fork p).0 (sys.fork p).1))

  -- A restart adds the child that it started.
  pub respawn-alive :
      (m : ℕ) (b : RestartBackoff) (p : P)
      → alive m (respawn sys num_workers b p).1
        ≡ alive m p + holds m (respawn sys num_workers b p).0.0
  unfolding respawn
  respawn-alive m b p =
      let (delay_ms, b') = on_death (sys.now p).0 b in
      started-alive m b' (sys.usleep (delay_ms * 1000) (sys.now p).1)
      ∙ ap (λ (n : ℕ). n + holds m (respawn sys num_workers b p).0.0)
          (law.sleeps m (delay_ms * 1000) (sys.now p).1 ∙ law.clocks m p)

  restart_reader-slots :
      (m waited : ℕ) (f : Family P)
      → is_pid waited f.children.reader ≡ true
      → slots m f.children ≡ alive m f.world + same m waited
      → slots m (restart_reader sys num_workers f).children
        ≡ alive m (restart_reader sys num_workers f).world
  unfolding restart_reader is_pid
  restart_reader-slots m waited f found h =
      let kept = respawn-alive m f.children.reader_backoff f.world in
      elim (Option-cases f.children.reader) [ inl e ↦ ground arith | inr (pid, e) ↦ ground arith ]

  restart_worker-slots :
      (m waited i : ℕ) (f : Family P)
      → find_worker waited f.children.workers ≡ some i
      → slots m f.children ≡ alive m f.world + same m waited
      → slots m (restart_worker sys num_workers i f).children
        ≡ alive m (restart_worker sys num_workers i f).world
  unfolding restart_worker
  restart_worker-slots m waited i f found h =
      let p = restore_semaphore sys num_workers Semaphore.concurrency f.world in
      let p' = restore_semaphore sys num_workers Semaphore.load_shed p in
      let b = get_or f.children.worker_backoff i (new_backoff 0) in
      let kept = respawn-alive m b p' in
      let first = restore_semaphore-alive m Semaphore.concurrency f.world in
      let second = restore_semaphore-alive m Semaphore.load_shed p in
      let moved =
        find_worker-set m waited i (respawn sys num_workers b p').0.0 f.children.workers found in
      omega arith

  -- A child that ended had a slot, and its slot has the new child.
  pub child_died-IsTracked :
      (waited : ℕ) (f : Family P)
      → ((m : ℕ) → slots m f.children ≡ alive m f.world + same m waited)
      → IsTracked (child_died sys num_workers waited f)
  unfolding child_died
  child_died-IsTracked waited f h m = elim (Bool-cases (is_pid waited f.children.reader)) [
    | inl e ↦ let kept = restart_reader-slots m waited f e (h m) in ground arith
    | inr e ↦ elim (Option-cases (find_worker waited f.children.workers)) [
      | inl g ↦
          let none_held = holds-is_pid waited f.children.reader e in
          let nowhere = find_worker-none waited f.children.workers g in
          let absurd = h waited in ground arith
      | inr (i, g) ↦ let kept = restart_worker-slots m waited i f g (h m) in ground arith
    ]
  ]

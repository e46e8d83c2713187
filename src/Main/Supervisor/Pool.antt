-- ===== src/Main/Supervisor/Pool.antt =====
-- The worker pool of src/main.cpp from its start to its end.
use cometvisu_knxd_fcgi.Main.Processes.{Processes, Reaped}
use cometvisu_knxd_fcgi.Main.Supervisor.{
  Children, Family, child_died, after_flag, after_child, supervise_round, supervise, start_workers,
  with_delays, stopped, shut_down, after_supervise, after_start, after_reader, run_pool,
}
use cometvisu_knxd_fcgi.Main.Supervisor.Tracking.{FamilyLaw}
use cometvisu_knxd_fcgi.Main.Supervisor.Coming.{
  ComingLaw, child_died-coming, start_workers-coming, with_delays-coming,
}
use cometvisu_knxd_fcgi.Main.Supervisor.Ending.{StopLaw, IsOver, stop_all-IsOver, stop_all-some}
use cometvisu_knxd_fcgi.Prelude.{
  ℕ, ◌≤◌, ◌<◌, ◌≡◌, ◌⊎◌, Bool, true, false, Option, some, zero, suc, refl, sym, ap, ◌∙◌, inl, inr,
  arith, subst, none, List,
}

module _ {P : Type 0} (sys : Processes P) (num_workers : ℕ) (alive told : ℕ → P → ℕ)
    (law : FamilyLaw sys alive told) (coming : P → ℕ) (less : ComingLaw sys coming)
    (calm : P → Type 0) (stop : StopLaw sys num_workers alive told law coming less calm) where
  -- The loop ends because of the flag, or because there is no child.
  record Finishes (outcome : Option (Family P)) (bound : ℕ) : Type 0 where
    family : Family P
    ends : outcome ≡ some family
    near : coming family.world < bound
    why : ((sys.shutdown_requested family.world).0 ≡ true) ⊎ ((m : ℕ) → alive m family.world ≡ 0)

  abbrev Goes : (Family P → Option (Family P)) → ℕ → Type 0
  Goes next bound = (f : Family P) → coming f.world < bound → Finishes (next f) (suc bound)

  flag_stays :
      (p q : P) → sys.shutdown_requested p ≡ (true, q) → (sys.shutdown_requested q).0 ≡ true
  flag_stays p q e =
      subst (λ (r : P). (sys.shutdown_requested r).0 ≡ true) (ap (λ (a : Bool × P). a.1) e)
        (stop.stays p (ap (λ (a : Bool × P). a.0) e))

  flag-coming :
      (p : P) (answer : Bool × P) → sys.shutdown_requested p ≡ answer → coming answer.1 ≤ coming p
  flag-coming p answer e = subst (λ (a : Bool × P). coming a.1 ≤ coming p) e (less.flags p)

  after_flag-Finishes :
      (next : Family P → Option (Family P)) (waited : ℕ) (c : Children) (p : P) (bound : ℕ)
      (answer : Bool × P)
      → sys.shutdown_requested p ≡ answer
      → Goes next bound
      → coming p < bound
      → Finishes (after_flag sys num_workers next waited c answer) (suc bound)
  after_flag-Finishes next waited c p bound (true, q) e goes h =
      let kept = flag-coming p (true, q) e in
      record {
        family = record { children = c; world = q };
        ends = refl;
        near = omega arith;
        why = inl (flag_stays p q e);
      }
  after_flag-Finishes next waited c p bound (false, q) e goes h =
      let kept = flag-coming p (false, q) e in
      let f : Family P = record { children = c; world = q } in
      let restarted = child_died-coming sys coming num_workers less waited f in
      goes (child_died sys num_workers waited f) (omega arith)

  after_child-Finishes :
      (next : Family P → Option (Family P)) (c : Children) (p : P) (bound : ℕ) (waited : Reaped × P)
      → sys.wait p ≡ waited
      → Goes next bound
      → coming p ≤ bound
      → Finishes (after_child sys num_workers next c waited) (suc bound)
  after_child-Finishes next c p bound (Reaped.child pid, q) e goes h =
      let shorter = less.reaps pid p q e in
      after_flag-Finishes next pid c q bound (sys.shutdown_requested q) refl goes (omega arith)
  after_child-Finishes next c p bound (Reaped.interrupted, q) e goes h =
      let shorter = less.breaks p q e in goes (record { children = c; world = q }) (omega arith)
  after_child-Finishes next c p bound (Reaped.no_child, q) e goes h =
      let kept = less.ends p q e in
      record {
        family = record { children = c; world = q };
        ends = refl;
        near = omega arith;
        why = inr (λ m. law.ends m p q e ∙ law.childless m p q e);
      }

  supervise_round-Finishes :
      (next : Family P → Option (Family P)) (c : Children) (p : P) (bound : ℕ) (answer : Bool × P)
      → sys.shutdown_requested p ≡ answer
      → Goes next bound
      → coming p ≤ bound
      → Finishes (supervise_round sys num_workers next c answer) (suc bound)
  supervise_round-Finishes next c p bound (true, q) e goes h =
      let kept = flag-coming p (true, q) e in
      record {
        family = record { children = c; world = q };
        ends = refl;
        near = omega arith;
        why = inl (flag_stays p q e);
      }
  supervise_round-Finishes next c p bound (false, q) e goes h =
      let kept = flag-coming p (false, q) e in
      after_child-Finishes next c q bound (sys.wait q) refl goes (omega arith)

  later : (o : Option (Family P)) (bound : ℕ) → Finishes o bound → Finishes o (suc bound)
  later o bound h =
      let near = h.near in
      record { family = h.family; ends = h.ends; near = omega arith; why = h.why }

  supervise-Finishes :
      (fuel : ℕ) (f : Family P)
      → coming f.world < fuel
      → Finishes (supervise sys num_workers fuel f) fuel
  unfolding supervise
  supervise-Finishes zero f h = ground arith
  supervise-Finishes (suc fuel) f h =
      supervise_round-Finishes (supervise sys num_workers fuel) f.children f.world fuel
        (sys.shutdown_requested f.world) refl
        (λ g shorter. later _ fuel (supervise-Finishes fuel g shorter)) (omega arith)

  -- The pool ends: with 0 if no child is left, and otherwise with 1 after a failure.
  pub record Ends (failed : Type 0) (outcome : Option (ℕ × P)) : Type 0 where
    code : ℕ
    world : P
    ends : outcome ≡ some (code, world)
    why : ((code ≡ 0) × ((m : ℕ) → alive m world ≡ 0)) ⊎ ((code ≡ 1) × failed)

  for_reason :
      {failed worse : Type 0} (outcome : Option (ℕ × P))
      → (failed → worse)
      → Ends failed outcome
      → Ends worse outcome
  for_reason outcome g h = record {
    code = h.code;
    world = h.world;
    ends = h.ends;
    why = elim h.why [ inl good ↦ inl good | inr (one, bad) ↦ inr (one, g bad) ];
  }

  stopped-Ends :
      {failed : Type 0} (outcome : Option P)
      → IsOver sys num_workers alive told law coming less calm outcome
      → Ends failed (stopped sys num_workers 0 outcome)
  unfolding IsOver
  stopped-Ends outcome (p, (e, none_left)) = record {
    code = 0;
    world = p;
    ends = ap (stopped sys num_workers 0) e;
    why = inl (refl, none_left);
  }

  shut_down-Ends :
      {failed : Type 0} (fuel : ℕ) (c : Children) (p : P) (answer : Bool × P)
      → sys.shutdown_requested p ≡ answer
      → coming p < fuel
      → (((sys.shutdown_requested p).0 ≡ true) ⊎ ((m : ℕ) → alive m p ≡ 0))
      → Ends failed (shut_down sys num_workers fuel answer c)
  shut_down-Ends fuel c p (true, q) e h why =
      let kept = flag-coming p (true, q) e in
      let is_calm : calm q =
        subst calm (ap (λ (a : Bool × P). a.1) e) (stop.calms p (ap (λ (a : Bool × P). a.0) e)) in
      stopped-Ends _ (
        stop_all-IsOver sys num_workers alive told law coming less calm stop fuel c.reader c.workers
          q is_calm (omega arith))
  shut_down-Ends fuel c p (false, q) e h (inl flag) =
      elim (differ (sym (ap (λ (a : Bool × P). a.0) e) ∙ flag)) [ ]
    where
      differ : false ≡ true → ⊥
      differ h = absurd cc
  shut_down-Ends fuel c p (false, q) e h (inr childless) = record {
    code = 0;
    world = q;
    ends = refl;
    why = inl (
      refl,
      λ m. subst (λ (a : Bool × P). alive m a.1 ≡ alive m p) e (law.flags m p) ∙ childless m,
    );
  }

  after_supervise-Ends :
      {failed : Type 0} (fuel : ℕ) (outcome : Option (Family P))
      → Finishes outcome fuel
      → Ends failed (after_supervise sys num_workers fuel outcome)
  after_supervise-Ends {failed} fuel outcome h =
      let f = h.family in
      subst (λ (o : Option (Family P)). Ends failed (after_supervise sys num_workers fuel o))
        (sym h.ends)
        (shut_down-Ends fuel f.children f.world (sys.shutdown_requested f.world) refl h.near h.why)

  failed-Ends :
      {failed : Type 0} (outcome : Option P)
      → failed
      → (r : P) × (outcome ≡ some r)
      → Ends failed (stopped sys num_workers 1 outcome)
  failed-Ends outcome bad (r, e) = record {
    code = 1;
    world = r;
    ends = ap (stopped sys num_workers 1) e;
    why = inr (refl, bad);
  }

  after_start-Ends :
      (fuel : ℕ) (reader : Option ℕ) (started : (Bool × List (Option ℕ)) × P)
      → coming started.1 < fuel
      → Ends (started.0.0 ≡ false) (after_start sys num_workers fuel reader started)
  after_start-Ends fuel reader ((true, workers), p) h =
      let kept = with_delays-coming sys coming num_workers less reader workers p in
      let f = with_delays sys num_workers reader workers (sys.now p) in
      after_supervise-Ends fuel (supervise sys num_workers fuel f)
        (supervise-Finishes fuel f (omega arith))
  after_start-Ends fuel reader ((false, workers), p) h =
      failed-Ends _ refl
        (stop_all-some sys num_workers alive told law coming less calm stop fuel reader workers p h)

  -- The fork of the cache reader fails, or that of a worker.
  abbrev pub Failed : Option ℕ × P → Type 0
  Failed (reader, p) = (reader ≡ none) ⊎ ((start_workers sys num_workers num_workers p).0.0 ≡ false)

  after_reader-Ends :
      (fuel : ℕ) (forked : Option ℕ × P)
      → coming forked.1 < fuel
      → Ends (Failed forked) (after_reader sys num_workers fuel forked)
  after_reader-Ends fuel (none, p) h = record {
    code = 1;
    world = p;
    ends = refl;
    why = inr (refl, inl refl);
  }
  after_reader-Ends fuel (some pid, p) h =
      let kept = start_workers-coming sys coming num_workers less num_workers p in
      for_reason _ (λ bad. inr bad)
        (after_start-Ends fuel (some pid) (start_workers sys num_workers num_workers p)
          (omega arith))

  -- With fuel for more rounds than children end and signals come, and where SIGTERM comes only once, the
  -- pool ends: with 0 and no child left, or with 1, and then the fork of the cache reader or of a first
  -- worker failed.
  pub run_pool-Ends :
      (fuel : ℕ) (p : P)
      → coming p < fuel
      → Ends (Failed (sys.fork p)) (run_pool sys num_workers fuel p)
  unfolding run_pool
  run_pool-Ends fuel p h =
      let kept = less.forks p in after_reader-Ends fuel (sys.fork p) (omega arith)

-- ===== src/Main/Supervisor/Ending.antt =====
-- The supervisor of src/main.cpp ends, and leaves no child.
use cometvisu_knxd_fcgi.Main.Processes.{Processes, Reaped}
use cometvisu_knxd_fcgi.Main.Supervisor.{kill_child, kill_workers, wait_all, after_last, stop_all}
use cometvisu_knxd_fcgi.Main.Supervisor.Tracking.{FamilyLaw}
use cometvisu_knxd_fcgi.Main.Supervisor.Coming.{ComingLaw, kill_children-coming}
use cometvisu_knxd_fcgi.Prelude.{
  ℕ, zero, suc, ◌<◌, ◌≡◌, ◌≢◌, refl, ap, ◌∙◌, true, Option, none, some, List, [], ◌∷◌, arith,
}

module _ {P : Type 0} (sys : Processes P) (num_workers : ℕ) (alive told : ℕ → P → ℕ)
    (law : FamilyLaw sys alive told) (coming : P → ℕ) (less : ComingLaw sys coming)
    (calm : P → Type 0) where
  -- SIGTERM comes once: the flag that is set stays set, and no `wait` behind it is interrupted.
  pub record StopLaw : Type 0 where
    pub stays :
        (p : P)
        → (sys.shutdown_requested p).0 ≡ true
        → (sys.shutdown_requested (sys.shutdown_requested p).1).0 ≡ true
    pub calms : (p : P) → (sys.shutdown_requested p).0 ≡ true → calm (sys.shutdown_requested p).1
    pub undisturbed : (p : P) → calm p → (sys.wait p).0 ≢ Reaped.interrupted
    pub waits_calm : (pid : ℕ) (p p' : P) → calm p → sys.wait p ≡ (Reaped.child pid, p') → calm p'
    pub kills_calm : (pid : ℕ) (p : P) → calm p → calm (sys.kill pid p)

  abbrev pub Childless : P → Type 0
  Childless p = (m : ℕ) → alive m p ≡ 0

  -- It ends, and no child is left.
  unfoldable pub IsOver : Option P → Type 0
  IsOver o = (p : P) × ((o ≡ some p) × Childless p)

  module _ (stop : StopLaw) where
    after_last-IsOver :
        (next : P → Option P) (p : P) (waited : Reaped × P)
        → sys.wait p ≡ waited
        → calm p
        → ((q : P) → calm q → coming q < coming p → IsOver (next q))
        → IsOver (after_last sys num_workers next waited)
    unfolding IsOver
    after_last-IsOver next p (Reaped.child pid, q) w c later =
        later q (stop.waits_calm pid p q c w) (less.reaps pid p q w)
    after_last-IsOver next p (Reaped.interrupted, q) w c later =
        elim (stop.undisturbed p c (ap (λ (r : Reaped × P). r.0) w)) [ ]
    after_last-IsOver next p (Reaped.no_child, q) w c later =
        (q, (refl, λ m. law.ends m p q w ∙ law.childless m p q w))

    wait_all-IsOver :
        (fuel : ℕ) (p : P) → calm p → coming p < fuel → IsOver (wait_all sys num_workers fuel p)
    unfolding wait_all
    wait_all-IsOver zero p c h = ground arith
    wait_all-IsOver (suc fuel) p c h =
        after_last-IsOver (wait_all sys num_workers fuel) p (sys.wait p) refl c
          (λ q c' shorter. wait_all-IsOver fuel q c' (omega arith))

    kill_child-calm : (pid : Option ℕ) (p : P) → calm p → calm (kill_child sys num_workers pid p)
    kill_child-calm none p c = c
    kill_child-calm (some pid) p c = stop.kills_calm pid p c

    kill_workers-calm :
        (ws : List (Option ℕ)) (p : P) → calm p → calm (kill_workers sys num_workers ws p)
    unfolding kill_workers
    kill_workers-calm [] p c = c
    kill_workers-calm (pid ∷ ws) p c =
        kill_workers-calm ws (kill_child sys num_workers pid p) (kill_child-calm pid p c)

    pub stop_all-IsOver :
        (fuel : ℕ) (reader : Option ℕ) (ws : List (Option ℕ)) (p : P)
        → calm p
        → coming p < fuel
        → IsOver (stop_all sys num_workers fuel reader ws p)
    unfolding stop_all
    stop_all-IsOver fuel reader ws p c h =
        let kept = kill_children-coming sys coming num_workers less reader ws p in
        wait_all-IsOver fuel (kill_workers sys num_workers ws (kill_child sys num_workers reader p))
          (kill_workers-calm ws (kill_child sys num_workers reader p) (kill_child-calm reader p c))
          (omega arith)

    -- The wait ends, though a signal may interrupt it.
    after_last-some :
        (next : P → Option P) (p : P) (waited : Reaped × P)
        → sys.wait p ≡ waited
        → ((q : P) → coming q < coming p → (r : P) × (next q ≡ some r))
        → (r : P) × (after_last sys num_workers next waited ≡ some r)
    after_last-some next p (Reaped.child pid, q) w later = later q (less.reaps pid p q w)
    after_last-some next p (Reaped.interrupted, q) w later = (q, refl)
    after_last-some next p (Reaped.no_child, q) w later = (q, refl)

    wait_all-some :
        (fuel : ℕ) (p : P) → coming p < fuel → (r : P) × (wait_all sys num_workers fuel p ≡ some r)
    unfolding wait_all
    wait_all-some zero p h = ground arith
    wait_all-some (suc fuel) p h =
        after_last-some (wait_all sys num_workers fuel) p (sys.wait p) refl
          (λ q shorter. wait_all-some fuel q (omega arith))

    pub stop_all-some :
        (fuel : ℕ) (reader : Option ℕ) (ws : List (Option ℕ)) (p : P)
        → coming p < fuel
        → (r : P) × (stop_all sys num_workers fuel reader ws p ≡ some r)
    unfolding stop_all
    stop_all-some fuel reader ws p h =
        let kept = kill_children-coming sys coming num_workers less reader ws p in
        wait_all-some fuel (kill_workers sys num_workers ws (kill_child sys num_workers reader p))
          (omega arith)

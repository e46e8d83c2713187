-- ===== src/Main/Processes.antt =====
-- The system calls that the supervisor in src/main.cpp makes. `P` is all that lies outside of it.
use cometvisu_knxd_fcgi.Prelude.{ℕ, Bool, Option}

-- `wait`: the pid of a child that ended, EINTR, or another error.
pub data Reaped : Type 0 where
  child : ℕ → Reaped
  interrupted no_child : Reaped

-- The two semaphores.
pub data Semaphore : Type 0 where
  concurrency load_shed : Semaphore

pub record Processes (P : Type 0) : Type 0 where
  -- The pid of the new child; what the child does is not part of the parent.
  pub fork : P → Option ℕ × P
  pub wait : P → Reaped × P
  pub kill : ℕ → P → P
  -- `g_shutdown_requested != 0`
  pub shutdown_requested : P → Bool × P
  pub usleep : ℕ → P → P
  -- The steady clock, in nanoseconds.
  pub now : P → ℕ × P
  -- `sem_getvalue`, if there is a semaphore and the call succeeds, and `sem_post`.
  pub sem_getvalue : Semaphore → P → Option ℕ × P
  pub sem_post : Semaphore → P → P

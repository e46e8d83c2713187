-- ===== src/Knxd/Client/Os.antt =====
-- The system calls that src/knxd/knxd_client.cpp makes, with what it distinguishes in their results. `W`
-- is all that lies outside the program: sockets, their peers, and the clock.
use cometvisu_knxd_fcgi.Prelude.{ℕ, Bool, Option, Bytes}
use cometvisu_knxd_fcgi.Prelude.Int.{ℤ}

-- `write`: the count, EINTR, EAGAIN or EWOULDBLOCK, another error.
pub data WriteCall : Type 0 where
  wrote : ℕ → WriteCall
  interrupted not_ready failed : WriteCall

-- `read`: the bytes (at least one), 0, EAGAIN or EWOULDBLOCK, EINTR, another error.
pub data ReadCall : Type 0 where
  got : Bytes → ReadCall
  end_of_file not_ready interrupted failed : ReadCall

-- `connect`: 0, EINPROGRESS, another error.
pub data ConnectCall : Type 0 where
  established in_progress refused : ConnectCall

-- `revents`
pub record Revents : Type 0 where
  pub readable : Bool
  pub hung_up : Bool
  pub in_error : Bool
  pub invalid : Bool

-- `poll`: 0, EINTR, another error, or the events of the descriptor.
pub data PollCall : Type 0 where
  timed_out interrupted failed : PollCall
  ready : Revents → PollCall

-- `events`
pub data Event : Type 0 where
  pollin pollout no_event : Event

pub record Os (W : Type 0) : Type 0 where
  pub socket : W → Option ℕ × W
  pub connect : ℕ → Bytes → W → ConnectCall × W
  pub socket_error : ℕ → W → Bool × W
  pub has_flags : ℕ → W → Bool
  pub set_nonblock : ℕ → Bool → W → W
  pub close : ℕ → W → W
  pub write : ℕ → Bytes → W → WriteCall × W
  pub read : ℕ → ℕ → W → ReadCall × W
  pub poll : ℕ → Event → ℤ → W → PollCall × W
  -- The steady clock and `sleep_for`, in nanoseconds.
  pub clock : W → ℕ × W
  pub sleep : ℕ → W → W

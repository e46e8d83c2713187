-- ===== src/Knxd/Client/Writing.antt =====
-- `write_all` of src/knxd/knxd_client.cpp. The loop takes fuel; `none` means that it ran out.
pub mod Whole
use cometvisu_knxd_fcgi.Prelude.Int.{ℤ, pos, negsuc}
use cometvisu_knxd_fcgi.Knxd.Client.Os.{Os, WriteCall, PollCall, pollout}
use cometvisu_knxd_fcgi.Prelude.{
  ℕ, zero, suc, Bool, true, false, Option, none, some, [], ◌∷◌, Bytes, drop,
}

module _ {W : Type 0} (os : Os W) where
  -- One round, the rest of the loop being `next`; what `poll` left, and before that what `write` left.
  abbrev pub after_poll : (Bytes → W → Option (Bool × W)) → Bytes → PollCall × W → Option (Bool × W)
  after_poll next data_ (PollCall.ready _, w) = next data_ w
  after_poll next data_ (_, w) = some (false, w)

  abbrev pub after_write :
      (Bytes → W → Option (Bool × W)) → ℕ → Bytes → WriteCall × W → Option (Bool × W)
  after_write next fd data_ (WriteCall.wrote n, w) = next (drop n data_) w
  after_write next fd data_ (WriteCall.interrupted, w) = next data_ w
  after_write next fd data_ (WriteCall.not_ready, w) =
      after_poll next data_ (os.poll fd pollout (pos 5000) w)
  after_write next fd data_ (WriteCall.failed, w) = some (false, w)

  -- The argument `data` is what is left from `offset` on.
  unfoldable pub write_all : ℕ → ℕ → Bytes → W → Option (Bool × W)
  write_all zero fd data_ w = none
  write_all (suc fuel) fd [] w = some (true, w)
  write_all (suc fuel) fd (b ∷ s) w =
      after_write (write_all fuel fd) fd (b ∷ s) (os.write fd (b ∷ s) w)

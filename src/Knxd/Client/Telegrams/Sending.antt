-- ===== src/Knxd/Client/Telegrams/Sending.antt =====
-- The rate limit of `send_group_packet` in src/knxd/knxd_client.cpp.
use cometvisu_knxd_fcgi.Knxd.Client.Os.{Os}
use cometvisu_knxd_fcgi.Knxd.Client.Connection.{Link}
use cometvisu_knxd_fcgi.Knxd.Client.Telegrams.{throttle, note_write, min_write_interval}
use cometvisu_knxd_fcgi.Prelude.{ℕ, ◌+◌, ◌-◌, ◌≤◌, ◌<◌, ◌≡◌, arith}

module _ {W : Type 0} (os : Os W) (path_limit : ℕ) (time : W → ℕ) where
  -- `clock` reads the time and `sleep` lasts at least as long as asked.
  pub record ClockLaw : Type 0 where
    pub reads : (w : W) → (let (now, w') = os.clock w in (now ≡ time w) × (time w ≤ time w'))
    pub sleeps : (n : ℕ) (w : W) → time w + n ≤ time (os.sleep n w)

  throttle-late :
      (last : ℕ) (w : W)
      → ClockLaw
      → 0 < last
      → last ≤ time w
      → last + min_write_interval ≤ time (throttle os path_limit last w)
  unfolding throttle
  throttle-late last w law p steady =
      let (now, w') = os.clock w in
      let (read, on) = law.reads w in
      let rest = law.sleeps (min_write_interval - (now - last)) w' in ground arith

  -- After a packet was noted at a time that is not 0, a wait for the next packet that begins at any
  -- later time ends at least 50 ms after the time of the first.
  pub throttle-spaces :
      (l : Link W) (w : W)
      → ClockLaw
      → 0 < time l.world
      → time (note_write os path_limit l).world ≤ time w
      → time l.world + 50_000_000
        ≤ time (throttle os path_limit (note_write os path_limit l).client.last_group_write w)
  unfolding note_write
  throttle-spaces l w law p later =
      let (read, on) = law.reads l.world in
      let late = throttle-late (os.clock l.world).0 w law (omega arith) (omega arith) in omega arith

-- ===== src/Knxd/Client/Writing/Whole.antt =====
-- `write_all` of src/knxd/knxd_client.cpp ends, and sends all bytes in order or reports that it failed.
use cometvisu_knxd_fcgi.Prelude.Int.{ℤ, pos}
use cometvisu_knxd_fcgi.Knxd.Client.Os.{Os, WriteCall, PollCall, Event, pollout}
use cometvisu_knxd_fcgi.Knxd.Client.Writing.{after_poll, after_write, write_all}
use cometvisu_knxd_fcgi.Prelude.{
  ℕ, zero, suc, ◌+◌, ◌≤◌, ◌<◌, ◌≡◌, refl, sym, ap, ◌∙◌, Bool, true, false, Option, some, [], ◌∷◌,
  ◌++◌, arith, Bytes, length, take, drop, append-nil, append_assoc, length-drop, take-append-drop,
}

-- What one `write` does to the bytes sent so far, and to a bound on the interruptions to come.
abbrev pub Writes : Bytes → Bytes → Bytes → ℕ → ℕ → WriteCall → Type 0
Writes bytes before after p q (WriteCall.wrote n) =
    (0 < n) × (n ≤ length bytes) × (after ≡ before ++ take n bytes) × (q ≤ p)
Writes bytes before after p q WriteCall.interrupted = (after ≡ before) × (q < p)
Writes bytes before after p q WriteCall.not_ready = (after ≡ before) × (q < p)
Writes bytes before after p q WriteCall.failed = (after ≡ before) × (q ≤ p)

module _ {W : Type 0} (os : Os W) (sent : ℕ → W → Bytes) (patience : W → ℕ) where
  -- `sent fd` grows by what `write` accepts, at least a byte; `write` is interrupted, or finds the
  -- socket full, only as often as `patience` says; `poll` sends nothing.
  pub record WriteLaw : Type 0 where
    pub writes :
        (fd : ℕ) (bytes : Bytes) (w : W)
        → (let (call, w') = os.write fd bytes w in
            Writes bytes (sent fd w) (sent fd w') (patience w) (patience w') call)
    pub polls :
        (fd : ℕ) (event : Event) (timeout : ℤ) (w : W)
        → (let (_, w') = os.poll fd event timeout w in
            (sent fd w' ≡ sent fd w) × (patience w' ≤ patience w))

  -- A part of the bytes was sent, and all of them if the call says so.
  pub record Sends (fd : ℕ) (bytes : Bytes) (w : W) (ok : Bool) (w' : W) : Type 0 where
    pub part : Bytes
    pub rest : Bytes
    pub split : part ++ rest ≡ bytes
    pub sends : sent fd w' ≡ sent fd w ++ part
    pub all_sent : ok ≡ true → rest ≡ []

  pub record Ends (run : Option (Bool × W)) (fd : ℕ) (bytes : Bytes) (w : W) : Type 0 where
    pub ok : Bool
    pub world : W
    pub ended : run ≡ some (ok, world)
    pub sends : Sends fd bytes w ok world
    pub calm : patience world ≤ patience w

  -- The call failed before it sent a byte.
  nothing_sent :
      (run : Option (Bool × W)) (fd : ℕ) (bytes : Bytes) (w w' : W)
      → run ≡ some (false, w')
      → sent fd w' ≡ sent fd w
      → patience w' ≤ patience w
      → Ends run fd bytes w
  nothing_sent run fd bytes w w' e same calm = record {
    calm = calm;
    ok = false;
    world = w';
    ended = e;
    sends = record {
      part = [];
      rest = bytes;
      split = refl;
      sends = same ∙ sym (append-nil (sent fd w));
      all_sent = λ h. absurd cc;
    };
  }

  -- Nothing was sent in this round, and the rest of the loop does it.
  again :
      (run : Option (Bool × W)) (fd : ℕ) (bytes : Bytes) (w w' : W)
      → sent fd w' ≡ sent fd w
      → patience w' ≤ patience w
      → Ends run fd bytes w'
      → Ends run fd bytes w
  again run fd bytes w w' same calm e = record {
    calm = let c = e.calm in omega arith;
    ok = e.ok;
    world = e.world;
    ended = e.ended;
    sends = record {
      part = e.sends.part;
      rest = e.sends.rest;
      split = e.sends.split;
      sends = e.sends.sends ∙ ap (λ b. b ++ e.sends.part) same;
      all_sent = e.sends.all_sent;
    };
  }

  -- A part was sent in this round, and the loop goes on behind it.
  more :
      (run : Option (Bool × W)) (fd n : ℕ) (bytes : Bytes) (w w' : W)
      → sent fd w' ≡ sent fd w ++ take n bytes
      → patience w' ≤ patience w
      → Ends run fd (drop n bytes) w'
      → Ends run fd bytes w
  more run fd n bytes w w' grown calm e = record {
    calm = let c = e.calm in omega arith;
    ok = e.ok;
    world = e.world;
    ended = e.ended;
    sends = record {
      part = take n bytes ++ e.sends.part;
      rest = e.sends.rest;
      split =
          append_assoc (take n bytes) e.sends.part e.sends.rest
          ∙ ap (λ b. take n bytes ++ b) e.sends.split
          ∙ take-append-drop n bytes;
      sends =
          e.sends.sends
          ∙ ap (λ b. b ++ e.sends.part) grown
          ∙ append_assoc (sent fd w) (take n bytes) e.sends.part;
      all_sent = e.sends.all_sent;
    };
  }

  module _ (law : WriteLaw) (next : Bytes → W → Option (Bool × W)) (fd : ℕ) (bytes : Bytes)
      (w : W) where
    poll-Ends :
        (call : PollCall) (w' : W)
        → sent fd w' ≡ sent fd w
        → patience w' ≤ patience w
        → Ends (next bytes w') fd bytes w'
        → Ends (after_poll os next bytes (call, w')) fd bytes w
    poll-Ends (PollCall.ready r) w' same calm ih = again (next bytes w') fd bytes w w' same calm ih
    poll-Ends PollCall.timed_out w' same calm ih = nothing_sent _ fd bytes w w' refl same calm
    poll-Ends PollCall.interrupted w' same calm ih = nothing_sent _ fd bytes w w' refl same calm
    poll-Ends PollCall.failed w' same calm ih = nothing_sent _ fd bytes w w' refl same calm

    write-Ends :
        (call : WriteCall) (w' : W)
        → Writes bytes (sent fd w) (sent fd w') (patience w) (patience w') call
        → ((b : Bytes) (v : W)
            → length b + patience v < length bytes + patience w
            → Ends (next b v) fd b v)
        → Ends (after_write os next fd bytes (call, w')) fd bytes w
    write-Ends (WriteCall.wrote n) w' (p, l, grown, q) ih =
        more (next (drop n bytes) w') fd n bytes w w' grown q
          (ih (drop n bytes) w' (omega (arith, length-drop n bytes)))
    write-Ends WriteCall.interrupted w' (same, q) ih =
        again (next bytes w') fd bytes w w' same (omega arith) (ih bytes w' (omega arith))
    write-Ends WriteCall.not_ready w' (same, q) ih =
        let (polled, v) = os.poll fd pollout (pos 5000) w' in
        let (still, r) = law.polls fd pollout (pos 5000) w' in
        poll-Ends polled v (still ∙ same) (omega arith) (ih bytes v (omega arith))
    write-Ends WriteCall.failed w' (same, q) ih = nothing_sent _ fd bytes w w' refl same q

  -- Where `write` accepts at least a byte, fails, or is put off, with more fuel than there are bytes to send and interruptions to come, `write_all` ends. The bytes sent
  -- are then a first part of its argument, in order, and all of it if it returns true.
  pub write_all-Ends :
      (fuel fd : ℕ) (bytes : Bytes) (w : W)
      → WriteLaw
      → length bytes + patience w < fuel
      → Ends (write_all os fuel fd bytes w) fd bytes w
  unfolding write_all
  write_all-Ends zero fd bytes w law enough = absurd (omega arith)
  write_all-Ends (suc fuel) fd [] w law enough = record {
    ok = true;
    world = w;
    calm = omega arith;
    ended = refl;
    sends = record {
      part = [];
      rest = [];
      split = refl;
      sends = sym (append-nil (sent fd w));
      all_sent = λ h. refl;
    };
  }
  write_all-Ends (suc fuel) fd (b ∷ s) w law enough =
      let (call, w') = os.write fd (b ∷ s) w in
      write-Ends law (write_all os fuel fd) fd (b ∷ s) w call w' (law.writes fd (b ∷ s) w)
        (λ c v less. write_all-Ends fuel fd c v law (omega arith))

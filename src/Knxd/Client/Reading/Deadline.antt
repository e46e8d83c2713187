-- ===== src/Knxd/Client/Reading/Deadline.antt =====
-- `read_message_deadline` of src/knxd/knxd_client.cpp ends, and loses no byte of the stream.
use cometvisu_knxd_fcgi.Prelude.Int.{ℤ, pos, negsuc}
use cometvisu_knxd_fcgi.Knxd.Client.Os.{Os, ReadCall, PollCall, Event, pollin}
use cometvisu_knxd_fcgi.Knxd.Client.Reading.{
  Received, read_result, read_some, after_attempt, after_wait, after_clock, read_until,
  read_message_deadline, max,
}
use cometvisu_knxd_fcgi.Knxd.Client.Reading.Stream.{
  Reads, Streams, front, frame, none_yet, make_room-small,
}
use cometvisu_knxd_fcgi.Knxd.Message.Framing.{IsFrame}
use cometvisu_knxd_fcgi.Prelude.{
  ℕ, ◌+◌, ◌≤◌, ◌<◌, ◌≡◌, refl, sym, ap, ◌∙◌, Option, none, some, [], ◌++◌, arith, Bytes, length,
  append-nil, append_assoc, length-append, zero, suc, ◌-◌, ◌*◌, ◌/◌, inl, inr, leb, Bool-cases,
  subst, max,
}

-- What a `read` does to a bound on the rounds that give nothing: one without data uses one up.
abbrev pub Waits : ℕ → ℕ → ReadCall → Type 0
Waits p q ReadCall.not_ready = q < p
Waits p q ReadCall.interrupted = q < p
Waits p q _ = q ≤ p

-- The same for `poll`.
abbrev pub Polled : ℕ → ℕ → PollCall → Type 0
Polled p q PollCall.interrupted = q < p
Polled p q _ = q ≤ p

module _ {W : Type 0} (os : Os W) (received : ℕ → W → Bytes) (patience : W → ℕ) where
  -- `received fd` grows by what `read` returns; `poll` is interrupted, and `read` finds nothing, only as
  -- often as `patience` says; `poll` and the clock receive nothing.
  pub record TimedLaw : Type 0 where
    pub reads :
        (fd n : ℕ) (w : W)
        → (let (call, w') = os.read fd n w in
            Reads n (received fd w) (received fd w') call × Waits (patience w) (patience w') call)
    pub polls :
        (fd : ℕ) (event : Event) (timeout : ℤ) (w : W)
        → (let (call, w') = os.poll fd event timeout w in
            (received fd w' ≡ received fd w) × Polled (patience w) (patience w') call)
    pub clocks :
        (fd : ℕ) (w : W)
        → (let (_, w') = os.clock w in
            (received fd w' ≡ received fd w) × (patience w' ≤ patience w))

  -- The run ends, and leaves what `Streams` says.
  pub record Ended (run : Option (Received W)) (fd : ℕ) (buffer : Bytes) (w : W) : Type 0 where
    pub outcome : Received W
    pub ended : run ≡ some outcome
    pub streams : Streams os received fd buffer w outcome
    pub calm : patience outcome.world ≤ patience w

  gives_up :
      (run : Option (Received W)) (fd : ℕ) (buffer : Bytes) (w w' : W)
      → run ≡ some (record { message = none; buffer = buffer; world = w' })
      → received fd w' ≡ received fd w
      → patience w' ≤ patience w
      → Ended run fd buffer w
  gives_up run fd buffer w w' e same calm = record {
    calm = calm;
    outcome = record { message = none; buffer = buffer; world = w' };
    ended = e;
    streams = record {
      new = [];
      read = same ∙ sym (append-nil (received fd w));
      kept = append-nil buffer;
      framed = λ m h. absurd cc;
    };
  }

  again :
      (run : Option (Received W)) (fd : ℕ) (buffer : Bytes) (w w' : W)
      → received fd w' ≡ received fd w
      → patience w' ≤ patience w
      → Ended run fd buffer w'
      → Ended run fd buffer w
  again run fd buffer w w' same calm o = record {
    calm = let c = o.calm in omega arith;
    outcome = o.outcome;
    ended = o.ended;
    streams = record {
      new = o.streams.new;
      read = o.streams.read ∙ ap (λ b. b ++ o.streams.new) same;
      kept = o.streams.kept;
      framed = o.streams.framed;
    };
  }

  grown :
      (run : Option (Received W)) (fd : ℕ) (buffer bytes : Bytes) (w w' : W)
      → received fd w' ≡ received fd w ++ bytes
      → patience w' ≤ patience w
      → Ended run fd (buffer ++ bytes) w'
      → Ended run fd buffer w
  grown run fd buffer bytes w w' more calm o = record {
    calm = let c = o.calm in omega arith;
    outcome = o.outcome;
    ended = o.ended;
    streams = record {
      new = bytes ++ o.streams.new;
      read = o.streams.read ∙ rw (more, append_assoc);
      kept = sym (append_assoc buffer bytes o.streams.new) ∙ o.streams.kept;
      framed = o.streams.framed;
    };
  }

  module _ (law : TimedLaw) (next : Bytes → W → Option (Received W)) (fd : ℕ) (buffer : Bytes)
      (small : length buffer < 65537) where
    attempt-Ended :
        (call : ReadCall) (w w' : W)
        → Reads 4096 (received fd w) (received fd w') call
        → Waits (patience w) (patience w') call
        → ((more : Bytes) (v : W)
            → length buffer + patience v < length more + patience w
            → length buffer ≤ length more
            → patience v ≤ patience w
            → Ended (next more v) fd more v)
        → Ended (after_attempt os next (read_result call buffer, w')) fd buffer w
    unfolding read_result
    attempt-Ended (ReadCall.got bytes) w w' (some_bytes, few, more) p ih =
        rw (make_room-small (length bytes) buffer (omega arith)) (
          grown (next (buffer ++ bytes) w') fd buffer bytes w w' more p (
            ih (buffer ++ bytes) w' (omega (arith, length-append buffer bytes))
              (omega (arith, length-append buffer bytes)) p))
    attempt-Ended ReadCall.end_of_file w w' same p ih = gives_up _ fd buffer w w' refl same p
    attempt-Ended ReadCall.failed w w' same p ih = gives_up _ fd buffer w w' refl same p
    attempt-Ended ReadCall.not_ready w w' same p ih =
        again (next buffer w') fd buffer w w' same (omega arith)
          (ih buffer w' (omega arith) (omega arith) (omega arith))
    attempt-Ended ReadCall.interrupted w w' same p ih =
        again (next buffer w') fd buffer w w' same (omega arith)
          (ih buffer w' (omega arith) (omega arith) (omega arith))

    wait-Ended :
        (call : PollCall) (w w' : W)
        → received fd w' ≡ received fd w
        → Polled (patience w) (patience w') call
        → ((more : Bytes) (v : W)
            → length buffer + patience v < length more + patience w
            → Ended (next more v) fd more v)
        → Ended (after_wait os next fd buffer (call, w')) fd buffer w
    unfolding read_some
    wait-Ended PollCall.timed_out w w' same p ih = gives_up _ fd buffer w w' refl same p
    wait-Ended PollCall.failed w w' same p ih = gives_up _ fd buffer w w' refl same p
    wait-Ended PollCall.interrupted w w' same p ih =
        again (next buffer w') fd buffer w w' same (omega arith) (ih buffer w' (omega arith))
    wait-Ended (PollCall.ready r) w w' same p ih =
        let (call, v) = os.read fd 4096 w' in
        let (taken, left) = law.reads fd 4096 w' in
        again _ fd buffer w w' same p
          (attempt-Ended call w' v taken left (λ more u l k q. ih more u (omega arith)))

    clock-Ended :
        (deadline : ℕ) (w : W)
        → ((more : Bytes) (v : W)
            → length buffer + patience v < length more + patience w
            → Ended (next more v) fd more v)
        → Ended (after_clock os next fd buffer deadline (os.clock w)) fd buffer w
    clock-Ended deadline w ih =
        let (now, w') = os.clock w in
        let (same, p) = law.clocks fd w in
        elim (Bool-cases (leb deadline now)) [
          | inl late ↦ rw late (gives_up _ fd buffer w w' refl same p)
          | inr early ↦ rw early (
              let time = pos (max 1 ((deadline - now) / 1_000_000)) in
              let (call, v) = os.poll fd pollin time w' in
              let (still, q) = law.polls fd pollin time w' in
              again _ fd buffer w w' same p
                (wait-Ended call w' v still q (λ more u l. ih more u (omega arith))))
        ]

  read_until-Ended :
      (fuel fd deadline : ℕ) (buffer : Bytes) (w : W)
      → TimedLaw
      → 65537 + patience w < fuel + length buffer
      → 0 < fuel
      → Ended (read_until os fuel fd deadline buffer w) fd buffer w
  unfolding read_until
  read_until-Ended zero fd deadline buffer w law enough p = absurd (omega arith)
  read_until-Ended (suc fuel) fd deadline buffer w law enough p = elim (front buffer) [
    | frame m rest e whole framed ↦ record {
      outcome = record { message = some m; buffer = rest; world = w };
      calm = omega arith;
      ended = rw (read_until, e);
      streams = record {
        new = [];
        read = sym (append-nil (received fd w));
        kept = append-nil buffer ∙ whole;
        framed = λ n h. let same : m ≡ n = cc in subst IsFrame same framed;
      };
    }
    | none_yet x l ↦
        rw (read_until, x)
          (clock-Ended law (read_until os fuel fd deadline) fd buffer l deadline w (λ more v less.
            read_until-Ended fuel fd deadline more v law (omega arith) (omega arith)))
  ]

  -- With a fuel that makes more than 65537 and the rounds without data to come with the length of the buffer,
  -- `read_message_deadline` ends, for every timeout. The buffer and the bytes it read are then the
  -- message, if there is one, and the new buffer, in order; and the message is one whole frame.
  pub read_message_deadline-Ended :
      (fuel fd : ℕ) (buffer : Bytes) (timeout_ms : ℤ) (w : W)
      → TimedLaw
      → 65537 + patience w < fuel + length buffer
      → 0 < fuel
      → Ended (read_message_deadline os fuel fd buffer timeout_ms w) fd buffer w
  unfolding read_message_deadline
  read_message_deadline-Ended fuel fd buffer (pos t) w law enough p =
      let (now, w') = os.clock w in
      let (same, q) = law.clocks fd w in
      again _ fd buffer w w' same q
        (read_until-Ended fuel fd (now + t * 1_000_000) buffer w' law (omega arith) p)
  read_message_deadline-Ended fuel fd buffer (negsuc t) w law enough p =
      let (now, w') = os.clock w in
      let (same, q) = law.clocks fd w in
      again _ fd buffer w w' same q (read_until-Ended fuel fd now buffer w' law (omega arith) p)

-- ===== src/Knxd/Client/Connection/Ending.antt =====
-- The calls of the client in src/knxd/knxd_client.cpp delay it no more often than the system does: what a
-- call that returns leaves, up to `connect`.
use cometvisu_knxd_fcgi.Prelude.Int.{ℤ, pos}
use cometvisu_knxd_fcgi.Prelude.Program.{Program, ◌>>=◌}
use cometvisu_knxd_fcgi.Knxd.Client.Os.{Os, ConnectCall, PollCall, Event, pollout}
use cometvisu_knxd_fcgi.Knxd.Client.Writing.Whole.{WriteLaw}
use cometvisu_knxd_fcgi.Knxd.Client.Reading.Deadline.{TimedLaw}
use cometvisu_knxd_fcgi.Knxd.Client.Connection.{
  Link, is_connected, close_fd, disconnect, set_nonblocking, connected, after_check,
  await_connection, after_connect, connect_fd, after_socket, connect,
}
use cometvisu_knxd_fcgi.Prelude.{
  ℕ, ◌≤◌, ◌≡◌, refl, inl, inr, Bool, true, false, Option, none, some, arith, Bytes, leb,
  if◌then◌else◌, length, Option-cases, Bool-cases, ap, ◌∙◌,
}

module _ {W : Type 0} (os : Os W) (path_limit : ℕ) (sent received : ℕ → W → Bytes)
    (patience : W → ℕ) where
  -- The system delays the client only so often, as `patience` says, and no call makes this more.
  pub record CalmLaw : Type 0 where
    pub writing : WriteLaw os sent patience
    pub reading : TimedLaw os received patience
    pub sockets : (w : W) → patience (os.socket w).1 ≤ patience w
    pub connects : (fd : ℕ) (path : Bytes) (w : W) → patience (os.connect fd path w).1 ≤ patience w
    pub asks : (fd : ℕ) (w : W) → patience (os.socket_error fd w).1 ≤ patience w
    pub sets :
        (fd : ℕ) (enable : Bool) (w : W) → patience (os.set_nonblock fd enable w) ≤ patience w
    pub closes : (fd : ℕ) (w : W) → patience (os.close fd w) ≤ patience w
    pub polls :
        (fd : ℕ) (event : Event) (timeout : ℤ) (w : W)
        → patience (os.poll fd event timeout w).1 ≤ patience w
    pub clocks : (w : W) → patience (os.clock w).1 ≤ patience w
    pub sleeps : (n : ℕ) (w : W) → patience (os.sleep n w) ≤ patience w

  -- No more delays are to come in the second world.
  abbrev pub Calmer : Link W → Link W → Type 0
  Calmer l l' = patience l'.world ≤ patience l.world

  -- A call returns.
  pub record Returns {A : Type 0} (outcome : Option (A × Link W)) (l : Link W) : Type 0 where
    pub value : A
    pub after : Link W
    pub ended : outcome ≡ some (value, after)
    pub calmer : Calmer l after

  pub returns : {A : Type 0} (a : A) (l l' : Link W) → Calmer l l' → Returns (some (a, l')) l
  returns a l l' h = record { value = a; after = l'; ended = refl; calmer = h }

  -- The rest of a program after a call that returns.
  pub bind-Returns :
      {A B : Type 0} (m : Program (Link W) A) (k : A → Program (Link W) B) (l : Link W)
      → Returns (m l) l
      → ((a : A) (l' : Link W) → Calmer l l' → Returns (k a l') l')
      → Returns ((m >>= k) l) l
  bind-Returns {A = A} {B = B} m k l first rest =
      let next = rest first.value first.after first.calmer in
      record {
        value = next.value;
        after = next.after;
        ended =
            ap
              (λ (o : Option (A × Link W)).
                let after : Option (B × Link W) = elim o [ none ↦ none | some (a, l') ↦ k a l' ] in
                after)
              first.ended
            ∙ next.ended;
        calmer = let p = first.calmer in let q = next.calmer in omega arith;
      }

  -- From an earlier state.
  pub earlier :
      {A : Type 0} (outcome : Option (A × Link W)) (l l' : Link W)
      → Calmer l l'
      → Returns outcome l'
      → Returns outcome l
  earlier outcome l l' h o = record {
    value = o.value;
    after = o.after;
    ended = o.ended;
    calmer = let p = o.calmer in omega arith;
  }

  module _ (law : CalmLaw) where
    pub close_fd-Calmer : (l : Link W) → Calmer l (close_fd os path_limit l)
    unfolding close_fd
    close_fd-Calmer l = elim (Option-cases l.client.fd) [
      | inl e ↦ ground arith
      | inr (fd, e) ↦ let p = law.closes fd l.world in ground arith
    ]

    pub disconnect-Calmer : (l : Link W) → Calmer l (disconnect os path_limit l)
    unfolding disconnect
    disconnect-Calmer l = close_fd-Calmer l

    pub set_nonblocking-Calmer :
        (enable : Bool) (l : Link W) → Calmer l (set_nonblocking os path_limit enable l)
    unfolding set_nonblocking
    set_nonblocking-Calmer enable l = elim (Option-cases l.client.fd) [
      | inl e ↦ ground arith
      | inr (fd, e) ↦ let p = law.sets fd enable l.world in ground arith
    ]

    connected-Calmer :
        (fd : ℕ) (flags : Bool) (l : Link W) → Calmer l (connected os path_limit fd flags l).1
    unfolding connected
    connected-Calmer fd true l = law.sets fd false l.world
    connected-Calmer fd false l = omega arith

    check-Calmer :
        (fd : ℕ) (flags : Bool) (l : Link W) (checked : Bool × W)
        → patience (after_check os path_limit fd flags l checked).1.world ≤ patience checked.1
    check-Calmer fd flags l (true, w) = close_fd-Calmer (record l { world = w })
    check-Calmer fd flags l (false, w) = connected-Calmer fd flags (record l { world = w })

    await-Calmer :
        (fd : ℕ) (flags : Bool) (l : Link W) (polled : PollCall × W)
        → patience (await_connection os path_limit fd flags l polled).1.world ≤ patience polled.1
    await-Calmer fd flags l (PollCall.ready _, w) =
        let p = check-Calmer fd flags l (os.socket_error fd w) in
        let q = law.asks fd w in omega arith
    await-Calmer fd flags l (PollCall.timed_out, w) = close_fd-Calmer (record l { world = w })
    await-Calmer fd flags l (PollCall.interrupted, w) = close_fd-Calmer (record l { world = w })
    await-Calmer fd flags l (PollCall.failed, w) = close_fd-Calmer (record l { world = w })

    tried-Calmer :
        (fd : ℕ) (flags : Bool) (l : Link W) (tried : ConnectCall × W)
        → patience (after_connect os path_limit fd flags l tried).1.world ≤ patience tried.1
    tried-Calmer fd flags l (ConnectCall.established, w) =
        connected-Calmer fd flags (record l { world = w })
    tried-Calmer fd flags l (ConnectCall.in_progress, w) =
        let p = await-Calmer fd flags l (os.poll fd pollout (pos 5000) w) in
        let q = law.polls fd pollout (pos 5000) w in omega arith
    tried-Calmer fd flags l (ConnectCall.refused, w) = close_fd-Calmer (record l { world = w })

    flags-Calmer :
        (fd : ℕ) (flags : Bool) (w : W)
        → patience (if flags then os.set_nonblock fd true w else w) ≤ patience w
    flags-Calmer fd true w = law.sets fd true w
    flags-Calmer fd false w = omega arith

    connect_fd-Calmer :
        (fd : ℕ) (path : Bytes) (l : Link W) → Calmer l (connect_fd os path_limit fd path l).1
    unfolding connect_fd
    connect_fd-Calmer fd path l =
        let flags = os.has_flags fd l.world in
        let w = if flags then os.set_nonblock fd true l.world else l.world in
        let p = tried-Calmer fd flags l (os.connect fd path w) in
        let q = law.connects fd path w in let r = flags-Calmer fd flags l.world in omega arith

    socket-Calmer :
        (path : Bytes) (l : Link W) (made : Option ℕ × W)
        → patience (after_socket os path_limit path l made).1.world ≤ patience made.1
    socket-Calmer path l (none, w) = omega arith
    socket-Calmer path l (some fd, w) = elim (Bool-cases (leb path_limit (length path))) [
      | inl long ↦ rw long (omega arith)
      | inr short ↦ rw short (connect_fd-Calmer fd path _)
    ]

    start-Calmer :
        (up : Bool) (l : Link W) → Calmer l (if up then disconnect os path_limit l else l)
    start-Calmer true l = disconnect-Calmer l
    start-Calmer false l = omega arith

    pub connect-Calmer : (path : Bytes) (l : Link W) → Calmer l (connect os path_limit path l).1
    unfolding connect
    connect-Calmer path l =
        let l' = if is_connected l.client then disconnect os path_limit l else l in
        let p = start-Calmer (is_connected l.client) l in
        let q = law.sockets l'.world in
        let r = socket-Calmer path l' (os.socket l'.world) in omega arith

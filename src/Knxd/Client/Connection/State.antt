-- ===== src/Knxd/Client/Connection/State.antt =====
-- The descriptors that `connect` and `disconnect` of src/knxd/knxd_client.cpp open and close.
use cometvisu_knxd_fcgi.Knxd.Client.Os.{Os, ConnectCall, PollCall, Event, pollout}
use cometvisu_knxd_fcgi.Knxd.Client.Connection.{
  Link, is_connected, close_fd, disconnect, connected, await_connection, connect_fd, connect,
  after_check, after_connect, after_socket,
}
use cometvisu_knxd_fcgi.Prelude.Int.{ℤ, pos}
use cometvisu_knxd_fcgi.Prelude.{
  ℕ, ◌≡◌, Bool, true, false, Option, none, some, arith, Bytes, if◌then◌else◌, ◌∙◌, ◌<◌, refl, ◌==◌,
  inl, inr, leb, length, Option-cases, Bool-cases, ==_iff, ap, is_fd,
}

module _ {W : Type 0} (os : Os W) (path_limit : ℕ) (is_open : ℕ → W → Bool) where
  -- The same descriptors are open.
  abbrev pub Same : W → W → Type 0
  Same v w = (n : ℕ) → is_open n v ≡ is_open n w

  -- One descriptor more is open.
  abbrev pub Grown : ℕ → W → W → Type 0
  Grown fd v w =
      (is_open fd v ≡ false) × ((n : ℕ) → is_open n w ≡ (if n == fd then true else is_open n v))

  -- `socket` opens the descriptor that it returns, which was not open; `close` closes its argument; no other
  -- call of `connect` opens or closes one.
  pub record DescriptorLaw : Type 0 where
    pub sockets : (fd : ℕ) (w w' : W) → os.socket w ≡ (some fd, w') → Grown fd w w'
    pub no_sockets : (w w' : W) → os.socket w ≡ (none, w') → Same w' w
    pub closes :
        (fd n : ℕ) (w : W) → is_open n (os.close fd w) ≡ (if n == fd then false else is_open n w)
    pub connects : (fd : ℕ) (path : Bytes) (w : W) → Same (os.connect fd path w).1 w
    pub polls :
        (fd : ℕ) (event : Event) (timeout : ℤ) (w : W) → Same (os.poll fd event timeout w).1 w
    pub asks : (fd : ℕ) (w : W) → Same (os.socket_error fd w).1 w
    pub sets : (fd : ℕ) (enable : Bool) (w : W) → Same (os.set_nonblock fd enable w) w

  Grown-Same : (fd : ℕ) (u v w : W) → Grown fd u v → Same w v → Grown fd u w
  Grown-Same fd u v w (new, h) same = (new, λ n. same n ∙ h n)

  -- What is left of a call that starts in the world `base` without a descriptor: the one that the client
  -- holds, if the call returns true, and none if it returns false.
  record Leaves (base : W) (ok : Bool) (after : Link W) : Type 0 where
    opens :
        (n : ℕ) → is_open n after.world ≡ (if is_fd n after.client.fd then true else is_open n base)
    holds : is_connected after.client ≡ ok

  abbrev Left : W → Bool × Link W → Type 0
  Left base (ok, after) = Leaves base ok after

  -- What a call of `connect` leaves: beside the descriptor that the client then holds, and the one that it
  -- held before, which is closed unless it is the same number again, what was open.
  pub record Connects (before : Link W) (ok : Bool) (after : Link W) : Type 0 where
    pub opens :
        (n : ℕ)
        → is_open n after.world ≡ (
            if is_fd n after.client.fd
            then true
            else if is_fd n before.client.fd
            then false
            else is_open n before.world)
    pub holds : is_connected after.client ≡ ok

  abbrev pub Outcome : Link W → Bool × Link W → Type 0
  Outcome before (ok, after) = Connects before ok after

  module _ (law : DescriptorLaw) where
    closed_again : (fd : ℕ) (base w : W) → Grown fd base w → Same (os.close fd w) base
    closed_again fd base w (new, h) n =
        let closed = law.closes fd n w in
        let grown = h n in
        elim (Bool-cases (n == fd)) [
          | inl e ↦
              let twin : is_open n base ≡ false =
                ap (λ (m : ℕ). is_open m base) ((==_iff n fd).0 e) ∙ new in
              ground arith
          | inr e ↦ ground arith
        ]

    -- A descriptor that is given up.
    gives_up :
        (fd : ℕ) (base : W) (l : Link W)
        → l.client.fd ≡ some fd
        → Grown fd base l.world
        → Leaves base false (close_fd os path_limit l)
    unfolding close_fd is_connected
    gives_up fd base l e grown =
        rw (close_fd, e) (record { opens = closed_again fd base l.world grown; holds = refl })

    keeps :
        (fd : ℕ) (base : W) (l : Link W)
        → l.client.fd ≡ some fd
        → Grown fd base l.world
        → Leaves base true l
    unfolding is_connected
    keeps fd base l e (new, h) = record { opens = λ n. rw e (h n); holds = rw e refl }

    connected-Left :
        (fd : ℕ) (flags : Bool) (base : W) (l : Link W)
        → l.client.fd ≡ some fd
        → Grown fd base l.world
        → Left base (connected os path_limit fd flags l)
    unfolding connected
    connected-Left fd true base l e grown =
        keeps fd base (record l { world = os.set_nonblock fd false l.world }) e
          (Grown-Same fd base l.world _ grown (law.sets fd false l.world))
    connected-Left fd false base l e grown = keeps fd base l e grown

    check-Left :
        (fd : ℕ) (flags : Bool) (base : W) (l : Link W) (checked : Bool × W)
        → l.client.fd ≡ some fd
        → Grown fd base checked.1
        → Left base (after_check os path_limit fd flags l checked)
    check-Left fd flags base l (true, w) e grown = gives_up fd base (record l { world = w }) e grown
    check-Left fd flags base l (false, w) e grown =
        connected-Left fd flags base (record l { world = w }) e grown

    await-Left :
        (fd : ℕ) (flags : Bool) (base : W) (l : Link W) (polled : PollCall × W)
        → l.client.fd ≡ some fd
        → Grown fd base polled.1
        → Left base (await_connection os path_limit fd flags l polled)
    await-Left fd flags base l (PollCall.ready _, w) e grown =
        check-Left fd flags base l (os.socket_error fd w) e
          (Grown-Same fd base w _ grown (law.asks fd w))
    await-Left fd flags base l (PollCall.timed_out, w) e grown =
        gives_up fd base (record l { world = w }) e grown
    await-Left fd flags base l (PollCall.interrupted, w) e grown =
        gives_up fd base (record l { world = w }) e grown
    await-Left fd flags base l (PollCall.failed, w) e grown =
        gives_up fd base (record l { world = w }) e grown

    connect-Left :
        (fd : ℕ) (flags : Bool) (base : W) (l : Link W) (tried : ConnectCall × W)
        → l.client.fd ≡ some fd
        → Grown fd base tried.1
        → Left base (after_connect os path_limit fd flags l tried)
    connect-Left fd flags base l (ConnectCall.established, w) e grown =
        connected-Left fd flags base (record l { world = w }) e grown
    connect-Left fd flags base l (ConnectCall.in_progress, w) e grown =
        await-Left fd flags base l (os.poll fd pollout (pos 5000) w) e
          (Grown-Same fd base w _ grown (law.polls fd pollout (pos 5000) w))
    connect-Left fd flags base l (ConnectCall.refused, w) e grown =
        gives_up fd base (record l { world = w }) e grown

    flags-Same :
        (fd : ℕ) (flags : Bool) (w : W) → Same (if flags then os.set_nonblock fd true w else w) w
    flags-Same fd true w = law.sets fd true w
    flags-Same fd false w = λ n. refl

    connect_fd-Left :
        (fd : ℕ) (path : Bytes) (base : W) (l : Link W)
        → l.client.fd ≡ some fd
        → Grown fd base l.world
        → Left base (connect_fd os path_limit fd path l)
    unfolding connect_fd
    connect_fd-Left fd path base l e grown =
        let flags = os.has_flags fd l.world in
        let w = if flags then os.set_nonblock fd true l.world else l.world in
        connect-Left fd flags base l (os.connect fd path w) e (
          Grown-Same fd base w _ (Grown-Same fd base l.world w grown (flags-Same fd flags l.world))
            (law.connects fd path w))

    socket-Left :
        (path : Bytes) (l : Link W) (opened : Option ℕ × W)
        → length path < path_limit
        → os.socket l.world ≡ opened
        → Left l.world (after_socket os path_limit path l opened)
    unfolding is_connected
    socket-Left path l (none, w) fits e = record {
      opens = law.no_sockets l.world w e;
      holds = refl;
    }
    socket-Left path l (some fd, w) fits e =
        let l' : Link W = record {
          client = record l.client { fd = some fd; socket_path = path };
          world = w;
        } in
        let long : leb path_limit (length path) ≡ false = ground arith in
        rw long (connect_fd-Left fd path l.world l' refl (law.sockets fd l.world w e))

    -- Without the descriptor that the client held.
    abbrev Cleared : Link W → Link W → Type 0
    Cleared l l' =
        (n : ℕ) → is_open n l'.world ≡ (if is_fd n l.client.fd then false else is_open n l.world)

    disconnect-Cleared : (l : Link W) → Cleared l (disconnect os path_limit l)
    unfolding disconnect close_fd
    disconnect-Cleared l n = elim (Option-cases l.client.fd) [
      | inl e ↦ rw e refl
      | inr (fd, e) ↦ rw e (law.closes fd n l.world)
    ]

    -- Before `socket`.
    cleared :
        (l : Link W) (up : Bool)
        → is_connected l.client ≡ up
        → Cleared l (if up then disconnect os path_limit l else l)
    unfolding is_connected
    cleared l true e = disconnect-Cleared l
    cleared l false e =
        λ n. elim (Option-cases l.client.fd) [ inl h ↦ rw h refl | inr (fd, h) ↦ ground arith ]

    behind_disconnect :
        (l l' : Link W) (r : Bool × Link W) → Cleared l l' → Left l'.world r → Outcome l r
    behind_disconnect l l' (ok, after) h o = record {
      opens = λ n. o.opens n ∙ ap (λ (b : Bool). if is_fd n after.client.fd then true else b) (h n);
      holds = o.holds;
    }

    -- When `socket` opens only the descriptor that it returns, which was not open, `close` closes only its
    -- argument, no other call opens or closes one, and the path is shorter than `sun_path`: on every branch
    -- of `connect`, a descriptor is open afterwards exactly if the client then holds it, or if it was open
    -- before and the client did not hold it; and the client holds one exactly if the call returned true.
    pub connect-Connects :
        (path : Bytes) (l : Link W)
        → length path < path_limit
        → Outcome l (connect os path_limit path l)
    unfolding connect
    connect-Connects path l fits =
        let l' = if is_connected l.client then disconnect os path_limit l else l in
        behind_disconnect l l' (after_socket os path_limit path l' (os.socket l'.world))
          (cleared l (is_connected l.client) refl)
          (socket-Left path l' (os.socket l'.world) fits refl)

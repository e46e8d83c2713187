-- ===== src/Fcgi/Server/Running/Closing.antt =====
-- `shutdown` of src/fcgi/fcgi_server.cpp closes what it opens.
use cometvisu_knxd_fcgi.Fcgi.Server.Library.{Library}
use cometvisu_knxd_fcgi.Fcgi.Server.Running.{
  FcgiServer, after_wakeup, after_wakeup_socket, after_name, wake_workers, shutdown, is_listening,
}
use cometvisu_knxd_fcgi.Prelude.{
  ℕ, zero, suc, ◌≡◌, refl, ◌∙◌, Bool, true, false, Option, none, some, Bytes, ◌==◌, if◌then◌else◌,
  ap, is_fd, inl, inr, arith, Option-cases, Bool-cases, ==_iff,
}

module _ {W : Type 0} (lib : Library W) (is_open : ℕ → W → Bool) where
  -- A new descriptor was not open; `close` closes it, and the other calls open and close none.
  pub record DescriptorLaw : Type 0 where
    pub opens :
        (path : Bytes) (backlog fd : ℕ) (w w' : W)
        → lib.open_socket path backlog w ≡ (some fd, w')
        → (is_open fd w ≡ false)
          × ((n : ℕ) → is_open n w' ≡ (if n == fd then true else is_open n w))
    pub sockets :
        (fd : ℕ) (w w' : W)
        → lib.socket w ≡ (some fd, w')
        → (is_open fd w ≡ false)
          × ((n : ℕ) → is_open n w' ≡ (if n == fd then true else is_open n w))
    pub no_sockets : (n : ℕ) (w w' : W) → lib.socket w ≡ (none, w') → is_open n w' ≡ is_open n w
    pub closes :
        (fd n : ℕ) (w : W) → is_open n (lib.close fd w) ≡ (if n == fd then false else is_open n w)
    pub connects : (fd n : ℕ) (w : W) → is_open n (lib.connect fd w).1 ≡ is_open n w
    pub names : (fd n : ℕ) (w : W) → is_open n (lib.getsockname fd w).1 ≡ is_open n w
    pub shuts : (fd n : ℕ) (w : W) → is_open n (lib.shutdown_socket fd w) ≡ is_open n w

  module _ (law : DescriptorLaw) where
    -- The same descriptors are open.
    abbrev Same : W → W → Type 0
    Same w w' = (n : ℕ) → is_open n w' ≡ is_open n w

    closed_again :
        (fd n : ℕ) (w w' : W)
        → is_open fd w ≡ false
        → is_open n w' ≡ (if n == fd then true else is_open n w)
        → is_open n (lib.close fd w') ≡ is_open n w
    closed_again fd n w w' new h =
        let closed = law.closes fd n w' in
        elim (Bool-cases (n == fd)) [
          | inl e ↦
              let twin : is_open n w ≡ false =
                ap (λ (m : ℕ). is_open m w) ((==_iff n fd).0 e) ∙ new in
              ground arith
          | inr e ↦ ground arith
        ]

    after_wakeup-Same :
        (next : W → W) (fd : ℕ) (w : W) (outcome : Bool × W)
        → ((v : W) → Same v (next v))
        → is_open fd w ≡ false
        → ((n : ℕ) → is_open n outcome.1 ≡ (if n == fd then true else is_open n w))
        → Same w (after_wakeup lib next fd outcome)
    after_wakeup-Same next fd w (true, w') same new h n =
        same (lib.close fd w') n ∙ closed_again fd n w w' new (h n)
    after_wakeup-Same next fd w (false, w') same new h n = closed_again fd n w w' new (h n)

    after_wakeup_socket-Same :
        (next : W → W) (w : W) (outcome : Option ℕ × W)
        → ((v : W) → Same v (next v))
        → lib.socket w ≡ outcome
        → Same w (after_wakeup_socket lib next outcome)
    after_wakeup_socket-Same next w (none, w') same e = λ n. law.no_sockets n w w' e
    after_wakeup_socket-Same next w (some fd, w') same e =
        let (new, h) = law.sockets fd w w' e in
        after_wakeup-Same next fd w (lib.connect fd w') same new (λ n. law.connects fd n w' ∙ h n)

    wake_workers-Same : (wakeups : ℕ) (w : W) → Same w (wake_workers lib wakeups w)
    unfolding wake_workers
    wake_workers-Same zero w = λ n. refl
    wake_workers-Same (suc wakeups) w =
        after_wakeup_socket-Same (wake_workers lib wakeups) w (lib.socket w)
          (wake_workers-Same wakeups) refl

    after_name-Same :
        (w : W) (outcome : Bool × W) → Same w outcome.1 → Same w (after_name lib outcome)
    after_name-Same w (true, w') h n = wake_workers-Same 64 w' n ∙ h n
    after_name-Same w (false, w') h n = h n

    -- After shutdown the server does not listen, its listen socket is closed, and every other
    -- descriptor is as it was: those of the connections that wake the workers are closed again,
    -- however the calls come out.
    pub shutdown-is_open :
        (server : FcgiServer) (w : W)
        → (is_listening lib (shutdown lib server w).0 ≡ false)
          × ((n : ℕ)
              → is_open n (shutdown lib server w).1
                ≡ (if is_fd n server.listen_fd then false else is_open n w))
    unfolding shutdown is_listening
    shutdown-is_open server w = elim (Option-cases server.listen_fd) [
      | inl e ↦ rw e (refl, λ n. refl)
      | inr (fd, e) ↦
          let named = lib.getsockname fd (lib.shutdown_socket fd w) in
          let same =
            after_name-Same w named
              (λ n. law.names fd n (lib.shutdown_socket fd w) ∙ law.shuts fd n w) in
          rw e (
            refl,
            λ n.
                law.closes fd n (after_name lib named)
                ∙ ap (λ (b : Bool). if n == fd then false else b) (same n),
          )
    ]

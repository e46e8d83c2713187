-- ===== src/Fcgi/Server/Running/Modes.antt =====
-- `run` of src/fcgi/fcgi_server.cpp in its two modes.
use mathlib.Core.Path.{subst}
use cometvisu_knxd_fcgi.Fcgi.Request.{FcgiRequest}
use cometvisu_knxd_fcgi.Fcgi.Server.Library.{Library}
use cometvisu_knxd_fcgi.Fcgi.Server.{content_length}
use cometvisu_knxd_fcgi.Fcgi.Server.Running.{
  FcgiServer, Ending, returned, or_empty, request_head, with_length, read_environ, respond_stdio,
  handled, serve_stdio, or_crashed, after_accept, stdio_loop, after_init, after_init_request,
  run_mode, run,
}
use cometvisu_knxd_fcgi.Fcgi.Server.Running.Answers.{
  Counts, RequestLaw, Answered, IsServed, write_response-Answered, read_content-counts,
  direct_loop-IsServed,
}
use cometvisu_knxd_fcgi.Prelude.{
  ℕ, zero, suc, ◌<◌, ◌≡◌, ◌≢◌, refl, ap, ◌∙◌, Bool, true, false, ◌||◌, Option, none, some, arith,
  Bytes, if◌then◌else◌, bytes_eq, codes, sym,
}

-- A request with a body says how long it is.
unfoldable pub IsProper : (Bytes → Option Bytes) → Type 0
IsProper getenv =
    bytes_eq (or_empty (getenv (codes "REQUEST_METHOD"))) (codes "POST")
        || bytes_eq (or_empty (getenv (codes "REQUEST_METHOD"))) (codes "PUT")
      ≡ true
    → getenv (codes "CONTENT_LENGTH") ≢ none

-- 1 in direct socket mode.
unfoldable pub finishing : Option ℕ → ℕ
finishing none = 0
finishing (some fd) = 1

module _ {W : Type 0} (lib : Library W) (counts : W → Counts) (law : RequestLaw lib counts)
    (proper : (getenv : Bytes → Option Bytes) (w w' : W)
      → lib.accept w ≡ (some getenv, w')
      → IsProper getenv) where
  -- A request is read, which changes no count.
  record IsRead (outcome : Option (FcgiRequest × W)) (w : W) : Type 0 where
    request : FcgiRequest
    after : W
    reads : outcome ≡ some (request, after)
    same : counts after ≡ counts w

  with_length-IsRead :
      (req : FcgiRequest) (length_str : Option Bytes) (w : W)
      → length_str ≢ none
      → IsRead (with_length lib req length_str w) w
  with_length-IsRead req none w h = elim (h refl) [ ]
  with_length-IsRead req (some s) w h = record {
    request = _;
    after = _;
    reads = refl;
    same = read_content-counts lib counts law (content_length s) (content_length s) w;
  }

  either-IsRead :
      (b : Bool) (a : Option (FcgiRequest × W)) (req : FcgiRequest) (w : W)
      → (b ≡ true → IsRead a w)
      → IsRead (if b then a else some (req, w)) w
  either-IsRead true a req w h = h refl
  either-IsRead false a req w h = record { request = req; after = w; reads = refl; same = refl }

  read_environ-IsRead :
      (getenv : Bytes → Option Bytes) (w : W)
      → IsProper getenv
      → IsRead (read_environ lib getenv w) w
  unfolding read_environ IsProper
  read_environ-IsRead getenv w h =
      either-IsRead _ _ (request_head (λ (name : Bytes). or_empty (getenv name))) w (λ e.
        with_length-IsRead (request_head (λ (name : Bytes). or_empty (getenv name)))
          (getenv (codes "CONTENT_LENGTH")) w (h e))

  -- A round answers the request.
  record IsRound (outcome : Option W) (w : W) : Type 0 where
    next : W
    ends : outcome ≡ some next
    one : Answered lib counts law w next

  serve_stdio-IsRound :
      (server : FcgiServer) (getenv : Bytes → Option Bytes) (w : W)
      → IsProper getenv
      → IsRound (serve_stdio lib server getenv w) w
  unfolding serve_stdio
  serve_stdio-IsRound server getenv w h =
      let got = read_environ-IsRead getenv w h in
      let (r, w') = handled lib (lib.handle got.request got.after) in
      record {
        next = respond_stdio lib server (r, w');
        ends = rw (serve_stdio, got.reads);
        one =
            write_response-Answered lib counts law server r w'
            ∙ ap (λ (c : Counts). let d : Counts = record c { answered = suc c.answered } in d)
                (law.handles got.request got.after ∙ got.same);
      }

  after_accept-IsServed :
      (server : FcgiServer) (next : W → Ending W) (w : W)
      (accepted : Option (Bytes → Option Bytes) × W)
      → lib.accept w ≡ accepted
      → ((v : W) → (counts v).waiting < (counts w).waiting → IsServed lib counts law 0 (next v) v)
      → IsServed lib counts law 0 (after_accept lib server next accepted) w
  after_accept-IsServed server next w (none, w') e h =
      let (empty, same) = law.ends w w' e in
      let waiting = ap (λ (c : Counts). c.waiting) same in
      let answered = ap (λ (c : Counts). c.answered) same in
      let finished = ap (λ (c : Counts). c.finished) same in
      record {
        after = w';
        returns = refl;
        none_waiting = omega arith;
        all_answered = omega arith;
        all_finished = omega arith;
      }
  after_accept-IsServed server next w (some getenv, w') e h =
      let round = serve_stdio-IsRound server getenv w' (proper getenv w w' e) in
      let one = law.accepts getenv w w' e in
      let waiting = ap (λ (c : Counts). c.waiting) one in
      let answered = ap (λ (c : Counts). c.answered) one in
      let finished = ap (λ (c : Counts). c.finished) one in
      let waiting' = ap (λ (c : Counts). c.waiting) round.one in
      let answered' = ap (λ (c : Counts). c.answered) round.one in
      let finished' = ap (λ (c : Counts). c.finished) round.one in
      let later = h round.next (omega arith) in
      let f1 = later.none_waiting in
      let f2 = later.all_answered in
      let f3 = later.all_finished in
      record {
        after = later.after;
        returns = ap (or_crashed lib next) round.ends ∙ later.returns;
        none_waiting = f1;
        all_answered = omega arith;
        all_finished = omega arith;
      }

  pub stdio_loop-IsServed :
      (fuel : ℕ) (server : FcgiServer) (w : W)
      → (counts w).waiting < fuel
      → IsServed lib counts law 0 (stdio_loop lib fuel server w) w
  unfolding stdio_loop
  stdio_loop-IsServed zero server w h = ground arith
  stdio_loop-IsServed (suc fuel) server w h =
      after_accept-IsServed server (stdio_loop lib fuel server) w (lib.accept w) refl
        (λ v less. stdio_loop-IsServed fuel server v (omega arith))

  -- From a state with the same counts.
  moved :
      (done : ℕ) (ending : Ending W) (v w : W)
      → counts v ≡ counts w
      → IsServed lib counts law done ending v
      → IsServed lib counts law done ending w
  moved done ending v w same h =
      let f1 = h.all_answered in
      let f2 = h.all_finished in
      record {
        after = h.after;
        returns = h.returns;
        none_waiting = h.none_waiting;
        all_answered = rw (sym same) f1;
        all_finished = rw (sym same) f2;
      }

  after_init_request-IsServed :
      (fuel : ℕ) (server : FcgiServer) (w : W) (outcome : Bool × W)
      → outcome.0 ≡ true
      → counts outcome.1 ≡ counts w
      → (counts w).waiting < fuel
      → IsServed lib counts law 1 (after_init_request lib fuel server outcome) w
  after_init_request-IsServed fuel server w (true, v) ok same h =
      let waiting = ap (λ (c : Counts). c.waiting) same in
      moved 1 _ v w same (direct_loop-IsServed lib counts law fuel server v (omega arith))
  after_init_request-IsServed fuel server w (false, v) ok same h = ground arith

  after_init-IsServed :
      (fuel : ℕ) (server : FcgiServer) (fd : ℕ) (w : W) (outcome : Bool × W)
      → outcome.0 ≡ true
      → counts outcome.1 ≡ counts w
      → (counts w).waiting < fuel
      → ((v : W) → (lib.init_request fd v).0 ≡ true)
      → IsServed lib counts law 1 (after_init lib fuel server fd outcome) w
  after_init-IsServed fuel server fd w (true, v) ok same h b =
      after_init_request-IsServed fuel server w (lib.init_request fd v) (b v)
        (law.inits_request fd v ∙ same) h
  after_init-IsServed fuel server fd w (false, v) ok same h b = ground arith

  run_mode-IsServed :
      (fuel : ℕ) (server : FcgiServer) (listen_fd : Option ℕ) (w : W)
      → (counts w).waiting < fuel
      → ((v : W) → (lib.init v).0 ≡ true)
      → ((fd : ℕ) (v : W) → (lib.init_request fd v).0 ≡ true)
      → IsServed lib counts law (finishing listen_fd) (run_mode lib fuel server listen_fd w) w
  unfolding finishing
  run_mode-IsServed fuel server none w h a b = stdio_loop-IsServed fuel server w h
  run_mode-IsServed fuel server (some fd) w h a b =
      after_init-IsServed fuel server fd w (lib.init w) (a w) (law.inits w) h (b fd)

  -- With a handler, with fuel for more rounds than requests are to come, where libfcgi starts and
  -- where each POST or PUT request of the spawn-fcgi mode has a CONTENT_LENGTH: run returns 0 in
  -- both modes, when no request is left, and has written exactly one response for each; in direct
  -- socket mode it has also finished each once.
  pub run-IsServed :
      (fuel : ℕ) (server : FcgiServer) (w : W)
      → server.has_handler ≡ true
      → (counts w).waiting < fuel
      → ((v : W) → (lib.init v).0 ≡ true)
      → ((fd : ℕ) (v : W) → (lib.init_request fd v).0 ≡ true)
      → IsServed lib counts law (finishing server.listen_fd) (run lib fuel server w) w
  unfolding run
  run-IsServed fuel server w h k a b =
      subst
        (λ (b : Bool).
          IsServed lib counts law (finishing server.listen_fd)
            (if b then run_mode lib fuel server server.listen_fd w else returned 1 w) w)
        (sym h) (run_mode-IsServed fuel server server.listen_fd w k a b)

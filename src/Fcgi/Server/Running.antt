-- ===== src/Fcgi/Server/Running.antt =====
-- `FcgiServer` of src/fcgi/fcgi_server.cpp: its socket, its loops in both modes, and `shutdown`. A loop
-- takes fuel, one for each request.
pub mod Equivalence
pub mod Answers
pub mod Modes
pub mod Closing
use cometvisu_knxd_fcgi.Fcgi.Request.{FcgiRequest}
use cometvisu_knxd_fcgi.Fcgi.Server.Library.{Library}
use cometvisu_knxd_fcgi.Fcgi.Server.{
  FcgiResponse, Pool, Tokens, Admission, admitted, refused, admit, release, invoke_handler,
  response_text, read_request, read_content, with_content, content_length,
}
use cometvisu_knxd_fcgi.Prelude.{
  ℕ, zero, suc, Bool, true, false, ◌||◌, not, Option, none, some, List, [], ◌∷◌, Bytes, ltb,
  if◌then◌else◌, bytes_eq, codes,
}

-- `listen_fd_`, where `none` is -1, and whether there is a handler.
pub record FcgiServer : Type 0 where
  pub listen_fd : Option ℕ
  pub has_handler : Bool

-- How `run` ends: it has no fuel left, it reads from a null pointer, or it returns.
pub data Ending (W : Type 0) : Type 0 where
  unfinished crashed : Ending W
  returned : ℕ → W → Ending W

-- An empty text for a missing variable.
unfoldable pub or_empty : Option Bytes → Bytes
or_empty none = []
or_empty (some value) = value

-- The variables of a request.
abbrev pub request_head : (Bytes → Bytes) → FcgiRequest
request_head value = record {
  request_method = value (codes "REQUEST_METHOD");
  request_uri = value (codes "REQUEST_URI");
  query_string = value (codes "QUERY_STRING");
  content_type = value (codes "CONTENT_TYPE");
  content = [];
  script_name = value (codes "SCRIPT_NAME");
  path_info = value (codes "PATH_INFO");
  server_protocol = value (codes "SERVER_PROTOCOL");
}

module _ {W : Type 0} (lib : Library W) where
  abbrev pub opened : FcgiServer → Option ℕ × W → Bool × (FcgiServer × W)
  opened server (none, w) = (false, (server, w))
  opened server (some fd, w) = (true, (record server { listen_fd = some fd }, w))

  -- `listen`, where 0 stands for each backlog below 1.
  unfoldable pub listen : Bytes → ℕ → FcgiServer → W → Bool × (FcgiServer × W)
  listen [] backlog server w = (false, (server, w))
  listen (c ∷ path) backlog server w =
      opened server (lib.open_socket (c ∷ path) (if ltb backlog 1 then 128 else backlog) w)

  unfoldable pub is_listening : FcgiServer → Bool
  is_listening server = elim server.listen_fd [ none ↦ false | some fd ↦ true ]

  unfoldable pub close_listen_socket : FcgiServer → W → FcgiServer × W
  close_listen_socket server w = elim server.listen_fd [
    | none ↦ (server, w)
    | some fd ↦ (record server { listen_fd = none }, lib.close fd w)
  ]

  -- The body where `CONTENT_LENGTH` is not missing: a null pointer is read otherwise.
  abbrev pub with_length : FcgiRequest → Option Bytes → W → Option (FcgiRequest × W)
  with_length req none w = none
  with_length req (some length_str) w =
      let missing = content_length length_str in
      some (with_content lib.fread req (read_content lib.fread missing missing w))

  -- `read_request()`, which reads the variables with `getenv`.
  abbrev pub read_variables : (Bytes → Bytes) → Option Bytes → W → Option (FcgiRequest × W)
  read_variables value length_str w =
      let method = value (codes "REQUEST_METHOD") in
      if bytes_eq method (codes "POST") || bytes_eq method (codes "PUT")
      then with_length (request_head value) length_str w
      else some (request_head value, w)

  unfoldable pub read_environ : (Bytes → Option Bytes) → W → Option (FcgiRequest × W)
  read_environ getenv w =
      read_variables (λ (name : Bytes). or_empty (getenv name)) (getenv (codes "CONTENT_LENGTH")) w

  -- `write_response`
  unfoldable pub write_response : FcgiServer → FcgiResponse → W → W
  write_response server r w = elim server.listen_fd [
    | none ↦ lib.fwrite (response_text r) w
    | some fd ↦ lib.put_str (response_text r) w
  ]

  abbrev pub handled : Option FcgiResponse × W → FcgiResponse × W
  handled (outcome, w) = (invoke_handler outcome, w)

  -- The request with the tokens that it takes.
  abbrev pub take_request : FcgiRequest → W → Admission × W
  take_request req w = let taken = admit req (lib.pool w) in (taken.0, lib.with_pool taken.1 w)

  -- The handler with its tokens.
  abbrev pub with_tokens : FcgiRequest → Tokens → W → FcgiResponse × (Tokens × W)
  with_tokens req t w = let (r, w') = handled (lib.handle req w) in (r, (t, w'))

  -- The response, the tokens that are still held, and what is outside.
  abbrev pub answer_request : FcgiRequest → Admission × W → FcgiResponse × (Tokens × W)
  answer_request req (refused r t, w) = (r, (t, w))
  answer_request req (admitted t, w) = with_tokens req t w

  -- From `write_response` to the end of the round, where the destructors give the tokens back.
  abbrev pub respond : FcgiServer → FcgiResponse × (Tokens × W) → W
  respond server (r, (t, w)) =
      let w' = lib.finish_r (write_response server r w) in
      lib.with_pool (release t (lib.pool w')) w'

  -- A round in direct socket mode, with the request that was accepted.
  abbrev pub serve_read : FcgiServer → FcgiRequest × W → W
  serve_read server (req, w) = respond server (answer_request req (take_request req w))

  unfoldable pub serve_direct : FcgiServer → Option (List Bytes) → W → W
  serve_direct server envp w = serve_read server (read_request lib.fread envp w)

  abbrev pub after_accept_r :
      FcgiServer → (W → Ending W) → Option (Option (List Bytes)) × W → Ending W
  after_accept_r server next (none, w) = returned 0 w
  after_accept_r server next (some envp, w) = next (serve_direct server envp w)

  unfoldable pub direct_loop : ℕ → FcgiServer → W → Ending W
  direct_loop zero server w = unfinished
  direct_loop (suc fuel) server w = after_accept_r server (direct_loop fuel server) (lib.accept_r w)

  -- A round in spawn-fcgi mode.
  abbrev pub respond_stdio : FcgiServer → FcgiResponse × W → W
  respond_stdio server (r, w) = write_response server r w

  unfoldable pub serve_stdio : FcgiServer → (Bytes → Option Bytes) → W → Option W
  serve_stdio server getenv w = elim (read_environ getenv w) [
    | none ↦ none
    | some (req, w') ↦ some (respond_stdio server (handled (lib.handle req w')))
  ]

  abbrev pub or_crashed : (W → Ending W) → Option W → Ending W
  or_crashed next none = crashed
  or_crashed next (some w) = next w

  abbrev pub after_accept :
      FcgiServer → (W → Ending W) → Option (Bytes → Option Bytes) × W → Ending W
  after_accept server next (none, w) = returned 0 w
  after_accept server next (some getenv, w) = or_crashed next (serve_stdio server getenv w)

  unfoldable pub stdio_loop : ℕ → FcgiServer → W → Ending W
  stdio_loop zero server w = unfinished
  stdio_loop (suc fuel) server w = after_accept server (stdio_loop fuel server) (lib.accept w)

  abbrev pub after_init_request : ℕ → FcgiServer → Bool × W → Ending W
  after_init_request fuel server (true, w) = direct_loop fuel server w
  after_init_request fuel server (false, w) = returned 1 w

  abbrev pub after_init : ℕ → FcgiServer → ℕ → Bool × W → Ending W
  after_init fuel server fd (true, w) = after_init_request fuel server (lib.init_request fd w)
  after_init fuel server fd (false, w) = returned 1 w

  abbrev pub run_mode : ℕ → FcgiServer → Option ℕ → W → Ending W
  run_mode fuel server none w = stdio_loop fuel server w
  run_mode fuel server (some fd) w = after_init fuel server fd (lib.init w)

  unfoldable pub run : ℕ → FcgiServer → W → Ending W
  run fuel server w =
      if server.has_handler then run_mode fuel server server.listen_fd w else returned 1 w

  -- "Self-connect": whether the loop goes on, with the socket closed in both cases.
  abbrev pub after_wakeup : (W → W) → ℕ → Bool × W → W
  after_wakeup next fd (true, w) = next (lib.close fd w)
  after_wakeup next fd (false, w) = lib.close fd w

  abbrev pub after_wakeup_socket : (W → W) → Option ℕ × W → W
  after_wakeup_socket next (none, w) = w
  after_wakeup_socket next (some fd, w) = after_wakeup next fd (lib.connect fd w)

  unfoldable pub wake_workers : ℕ → W → W
  wake_workers zero w = w
  wake_workers (suc wakeups) w = after_wakeup_socket (wake_workers wakeups) (lib.socket w)

  abbrev pub after_name : Bool × W → W
  after_name (true, w) = wake_workers 64 w
  after_name (false, w) = w

  -- `shutdown`, apart from the flag that it sets, which nothing reads.
  unfoldable pub shutdown : FcgiServer → W → FcgiServer × W
  shutdown server w = elim server.listen_fd [
    | none ↦ (server, w)
    | some fd ↦ (
      record server { listen_fd = none },
      lib.close fd (after_name (lib.getsockname fd (lib.shutdown_socket fd w))),
    )
  ]

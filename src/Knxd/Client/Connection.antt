-- ===== src/Knxd/Client/Connection.antt =====
-- `KnxdClient`, its connection: `connect`, `disconnect`, `reconnect`, `open_group_socket` and the calls
-- that need no loop. The fuel is for the loops of the reads and writes.
pub mod State
pub mod Ending
pub mod Reopening
use cometvisu_knxd_fcgi.Prelude.Int.{ℤ, pos, negsuc}
use cometvisu_knxd_fcgi.Prelude.Program.{Program, ◌>>=◌, ◌>>◌, give, run, ask, change}
use cometvisu_knxd_fcgi.Knxd.Client.Writing.{write_all}
use cometvisu_knxd_fcgi.Knxd.Message.{
  EibTypes, rejected, undefined_behaviour, parsed, parse_eibd_message, build_open_groupcon,
}
use cometvisu_knxd_fcgi.Knxd.Client.Os.{
  Os, ConnectCall, PollCall, Revents, pollin, pollout, WriteCall,
}
use cometvisu_knxd_fcgi.Prelude.{
  ℕ, Bool, true, false, ◌||◌, Option, none, some, [], Bytes, leb, ◌==◌, if◌then◌else◌, length, max,
  is_empty,
}
use cometvisu_knxd_fcgi.Knxd.Client.Reading.{read_message_deadline}

-- `KnxdClient::Impl`; no descriptor is -1.
pub record Client : Type 0 where
  pub fd : Option ℕ
  pub group_socket_open : Bool
  pub handshake_timeout_ms : ℤ
  pub socket_path : Bytes
  pub write_only : Bool
  pub read_buffer : Bytes
  pub telegram_count : ℕ
  pub last_group_write : ℕ

abbrev pub new_client : Client
new_client = record {
  fd = none;
  group_socket_open = false;
  handshake_timeout_ms = pos 5000;
  socket_path = [];
  write_only = false;
  read_buffer = [];
  telegram_count = 0;
  last_group_write = 0;
}

-- The client with all that lies outside.
pub record Link (W : Type 0) : Type 0 where
  pub client : Client
  pub world : W

unfoldable pub is_connected : Client → Bool
is_connected c = elim c.fd [ none ↦ false | some _ ↦ true ]

unfoldable pub set_handshake_timeout_ms : ℤ → Client → Client
set_handshake_timeout_ms (pos ms) c = record c { handshake_timeout_ms = pos (max 1 ms) }
set_handshake_timeout_ms (negsuc _) c = record c { handshake_timeout_ms = pos 1 }

pub data WaitResult : Type 0 where
  timeout group_data error : WaitResult

-- The events, once `poll` has returned some.
unfoldable pub activity : Revents → WaitResult
activity r =
    if r.hung_up || (r.in_error || r.invalid)
    then error
    else if r.readable
    then group_data
    else timeout

module _ {W : Type 0} (os : Os W) (path_limit : ℕ) where
  -- `close(fd); fd = -1;`, if there is one.
  unfoldable pub close_fd : Link W → Link W
  close_fd l = elim l.client.fd [
    | none ↦ l
    | some fd ↦ record { client = record l.client { fd = none }; world = os.close fd l.world }
  ]

  unfoldable pub disconnect : Link W → Link W
  disconnect l =
      let closed = close_fd l in
      record closed {
        client = record closed.client { group_socket_open = false; read_buffer = [] };
      }

  unfoldable pub set_nonblocking : Bool → Link W → Link W
  set_nonblocking enable l = elim l.client.fd [
    | none ↦ l
    | some fd ↦
        if os.has_flags fd l.world
        then record l { world = os.set_nonblock fd enable l.world }
        else l
  ]

  -- From "Restore blocking mode".
  unfoldable pub connected : ℕ → Bool → Link W → Bool × Link W
  connected fd flags l =
      if flags then (true, record l { world = os.set_nonblock fd false l.world }) else (true, l)

  -- What `getsockopt` reports, and before that what the wait for a connection in progress gave.
  abbrev pub after_check : ℕ → Bool → Link W → Bool × W → Bool × Link W
  after_check fd flags l (true, w) = (false, close_fd (record l { world = w }))
  after_check fd flags l (false, w) = connected fd flags (record l { world = w })

  abbrev pub await_connection : ℕ → Bool → Link W → PollCall × W → Bool × Link W
  await_connection fd flags l (PollCall.ready _, w) = after_check fd flags l (os.socket_error fd w)
  await_connection fd flags l (_, w) = (false, close_fd (record l { world = w }))

  abbrev pub after_connect : ℕ → Bool → Link W → ConnectCall × W → Bool × Link W
  after_connect fd flags l (ConnectCall.established, w) =
      connected fd flags (record l { world = w })
  after_connect fd flags l (ConnectCall.in_progress, w) =
      await_connection fd flags l (os.poll fd pollout (pos 5000) w)
  after_connect fd flags l (ConnectCall.refused, w) = (false, close_fd (record l { world = w }))

  -- From "Non-blocking connect" on.
  unfoldable pub connect_fd : ℕ → Bytes → Link W → Bool × Link W
  connect_fd fd socket_path l =
      let flags = os.has_flags fd l.world in
      let w = if flags then os.set_nonblock fd true l.world else l.world in
      after_connect fd flags l (os.connect fd socket_path w)

  -- With the result of `socket`.
  abbrev pub after_socket : Bytes → Link W → Option ℕ × W → Bool × Link W
  after_socket socket_path l (none, w) =
      (false, record { client = record l.client { fd = none }; world = w })
  after_socket socket_path l (some fd, w) =
      if leb path_limit (length socket_path)
      then (false, record { client = record l.client { fd = some fd }; world = w })
      else connect_fd fd socket_path (record {
        client = record l.client { fd = some fd; socket_path = socket_path };
        world = w;
      })

  unfoldable pub connect : Bytes → Link W → Bool × Link W
  connect socket_path l =
      let l' = if is_connected l.client then disconnect l else l in
      after_socket socket_path l' (os.socket l'.world)

  -- `read_message_deadline(impl_->fd, impl_->read_buffer_, ...)`
  unfoldable pub receive_deadline : ℕ → ℕ → Program (Link W) (Option Bytes)
  receive_deadline fuel fd l =
      elim (read_message_deadline os fuel fd l.client.read_buffer l.client.handshake_timeout_ms
        l.world) [
          | none ↦ none
          | some r ↦ some (
            r.message,
            record { client = record l.client { read_buffer = r.buffer }; world = r.world },
          )
        ]

  unfoldable pub send_bytes : ℕ → ℕ → Bytes → Program (Link W) Bool
  send_bytes fuel fd data_ l = elim (write_all os fuel fd data_ l.world) [
    | none ↦ none
    | some (ok, w) ↦ some (ok, record l { world = w })
  ]

  -- The answer to the handshake.
  unfoldable pub finish_handshake : EibTypes → Option Bytes → Program (Link W) Bool
  finish_handshake eib none = give false
  finish_handshake eib (some resp) = elim (parse_eibd_message resp) [
    | rejected ↦ give false
    | undefined_behaviour ↦ give false
    | parsed resp_type _ ↦ do
      change (λ l. record l {
        client = record l.client { group_socket_open = resp_type == eib.open_groupcon };
      })
      give (resp_type == eib.open_groupcon)
  ]

  unfoldable pub handshake : ℕ → EibTypes → ℕ → Bool → Program (Link W) Bool
  handshake fuel eib fd write_only = do
    change (λ l. record l { client = record l.client { write_only = write_only } })
    sent ← send_bytes fuel fd (build_open_groupcon eib write_only)
    if sent then receive_deadline fuel fd >>= finish_handshake eib else give false

  unfoldable pub open_group_socket : ℕ → EibTypes → Bool → Program (Link W) Bool
  open_group_socket fuel eib write_only l = elim l.client.fd [
    | none ↦ some (false, l)
    | some fd ↦ handshake fuel eib fd write_only l
  ]

  -- `reconnect` behind `connect`.
  unfoldable pub reopen : ℕ → EibTypes → Bool → Program (Link W) Bool
  reopen fuel eib write_only = do
    ok ← open_group_socket fuel eib write_only
    if ok then change (set_nonblocking true) >> give true else change disconnect >> give false

  unfoldable pub reconnect : ℕ → EibTypes → Program (Link W) Bool
  reconnect fuel eib l =
      let cleared = disconnect l in
      let (up, l₁) = connect l.client.socket_path cleared in
      if is_empty l.client.socket_path
      then some (false, l)
      else if up
      then reopen fuel eib l.client.write_only l₁
      else some (false, l₁)

  unfoldable pub wait_for_activity : ℤ → Link W → WaitResult × Link W
  wait_for_activity timeout_ms l = elim l.client.fd [
    | none ↦ (error, l)
    | some fd ↦
        let (call, w) = os.poll fd pollin timeout_ms l.world in
        elim call [
          | PollCall.timed_out ↦ (timeout, record l { world = w })
          | PollCall.interrupted ↦ (timeout, record l { world = w })
          | PollCall.failed ↦ (error, record l { world = w })
          | PollCall.ready r ↦ (activity r, record l { world = w })
        ]
  ]

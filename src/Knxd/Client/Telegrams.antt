-- ===== src/Knxd/Client/Telegrams.antt =====
-- `send_group_packet` and `poll_group_telegram` of src/knxd/knxd_client.cpp.
pub mod Sending
pub mod Ending
pub mod Wire
use cometvisu_knxd_fcgi.Prelude.Int.{ℤ, pos, negsuc}
use cometvisu_knxd_fcgi.Prelude.Program.{Program, ◌>>=◌, ◌>>◌, give, run, ask, change}
use cometvisu_knxd_fcgi.Knxd.Message.{
  EibTypes, rejected, undefined_behaviour, parsed, parse_eibd_message, uint16, build_group_packet,
}
use cometvisu_knxd_fcgi.Knxd.Client.Os.{Os, PollCall, Revents, no_event}
use cometvisu_knxd_fcgi.Knxd.Client.Connection.{Client, Link, send_bytes, reconnect, is_connected}
use cometvisu_knxd_fcgi.Prelude.{
  ℕ, ◌+◌, ◌-◌, ◌%◌, ◌^◌, Bool, true, false, ◌&&◌, ◌||◌, Option, none, some, Bytes, ltb, leb, ◌==◌,
  if◌then◌else◌, length, drop, get_or,
}
use cometvisu_knxd_fcgi.Knxd.Client.Reading.{read_message}

-- `kMinWriteInterval`, in nanoseconds.
abbrev pub min_write_interval : ℕ
min_write_interval = 50_000_000

-- The group address and the APDU, if the message is a telegram.
unfoldable pub telegram_of : EibTypes → Bytes → Option (ℕ × Bytes)
telegram_of eib message = elim (parse_eibd_message message) [
  | rejected ↦ none
  | undefined_behaviour ↦ none
  | parsed msg_type msg_data ↦
      if (msg_type == eib.apdu_packet && leb 6 (length msg_data))
        || (msg_type == eib.group_packet && leb 6 (length msg_data))
      then some (uint16 (get_or msg_data 2 0) (get_or msg_data 3 0), drop 4 msg_data)
      else none
]

module _ {W : Type 0} (os : Os W) (path_limit : ℕ) where
  -- "Rate limiting"
  unfoldable pub throttle : ℕ → W → W
  throttle last_group_write w =
      let (now, w') = os.clock w in
      let elapsed = now - last_group_write in
      if ltb 0 last_group_write
      then if ltb elapsed min_write_interval then os.sleep (min_write_interval - elapsed) w' else w'
      else w

  -- `impl_->last_group_write_ = now()`
  unfoldable pub note_write : Link W → Link W
  note_write l =
      let (now, w) = os.clock l.world in
      record { client = record l.client { last_group_write = now }; world = w }

  -- Whatever the descriptor is now.
  unfoldable pub send_packet : ℕ → EibTypes → ℕ → Bytes → Program (Link W) Bool
  send_packet fuel eib group_addr apdu l = elim l.client.fd [
    | none ↦ some (false, l)
    | some fd ↦ send_bytes os path_limit fuel fd (build_group_packet eib group_addr apdu) l
  ]

  -- "Reconnect and retry once."
  unfoldable pub retry_packet : ℕ → EibTypes → ℕ → Bytes → Program (Link W) Bool
  retry_packet fuel eib group_addr apdu = do
    up ← reconnect os path_limit fuel eib
    if up then send_packet fuel eib group_addr apdu else give false

  unfoldable pub write_packet : ℕ → EibTypes → ℕ → Bytes → Program (Link W) Bool
  write_packet fuel eib group_addr apdu = do
    sent ← send_packet fuel eib group_addr apdu
    done ← (if sent then give true else retry_packet fuel eib group_addr apdu)
    change note_write
    give done

  unfoldable pub ensure_group_socket : ℕ → EibTypes → Program (Link W) Bool
  ensure_group_socket fuel eib l =
      if is_connected l.client && l.client.group_socket_open
      then some (true, l)
      else reconnect os path_limit fuel eib l

  unfoldable pub send_group_packet : ℕ → EibTypes → ℕ → Bytes → Program (Link W) Bool
  send_group_packet fuel eib group_addr apdu = do
    change (λ l. record l { world = throttle l.client.last_group_write l.world })
    up ← ensure_group_socket fuel eib
    if up then write_packet fuel eib group_addr apdu else give false

  -- `read_message(impl_->fd, impl_->read_buffer_)`
  unfoldable pub receive : ℕ → Program (Link W) (Option Bytes)
  receive fuel l = elim l.client.fd [
    | none ↦ some (none, l)
    | some fd ↦ elim (read_message os fuel fd l.client.read_buffer l.world) [
      | none ↦ none
      | some r ↦ some (
        r.message,
        record { client = record l.client { read_buffer = r.buffer }; world = r.world },
      )
    ]
  ]

  -- Whether `poll` reports that the connection died.
  unfoldable pub is_dead : Link W → Bool × Link W
  is_dead l = elim l.client.fd [
    | none ↦ (false, l)
    | some fd ↦
        let (call, w) = os.poll fd no_event (pos 0) l.world in
        elim call [
          | PollCall.ready r ↦ (r.hung_up || r.in_error, record l { world = w })
          | _ ↦ (false, record l { world = w })
        ]
  ]

  -- "Check if the connection died (POLLHUP) — reconnect and retry once."
  unfoldable pub receive_again : ℕ → EibTypes → Program (Link W) (Option Bytes)
  receive_again fuel eib = do
    dead ← run is_dead
    up ← (if dead then reconnect os path_limit fuel eib else give false)
    if up then receive fuel else give none

  unfoldable pub receive_message : ℕ → EibTypes → Program (Link W) (Option Bytes)
  receive_message fuel eib = do
    first ← receive fuel
    elim first [ some m ↦ give (some m) | none ↦ receive_again fuel eib ]

  -- The telegram of a message, which is counted.
  unfoldable pub take_telegram : EibTypes → Option Bytes → Link W → Option (ℕ × Bytes) × Link W
  take_telegram eib none l = (none, l)
  take_telegram eib (some message) l = elim (telegram_of eib message) [
    | none ↦ (none, l)
    | some t ↦ (
      some t,
      record l {
        client = record l.client { telegram_count = (l.client.telegram_count + 1) % 2 ^ 64 };
      },
    )
  ]

  unfoldable pub ensure_connected : ℕ → EibTypes → Program (Link W) Bool
  ensure_connected fuel eib l =
      if is_connected l.client then some (true, l) else reconnect os path_limit fuel eib l

  unfoldable pub poll_group_telegram : ℕ → EibTypes → Program (Link W) (Option (ℕ × Bytes))
  poll_group_telegram fuel eib = do
    up ← ensure_connected fuel eib
    message ← (if up then receive_message fuel eib else give none)
    run (take_telegram eib message)

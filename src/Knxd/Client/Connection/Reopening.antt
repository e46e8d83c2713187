-- ===== src/Knxd/Client/Connection/Reopening.antt =====
-- The calls of the client in src/knxd/knxd_client.cpp return, from `send_bytes` up to `reconnect`.
use cometvisu_knxd_fcgi.Prelude.Program.{◌>>=◌, ◌>>◌, give, change}
use cometvisu_knxd_fcgi.Knxd.Client.Os.{Os}
use cometvisu_knxd_fcgi.Knxd.Message.{
  EibTypes, ParseResult, rejected, undefined_behaviour, parsed, parse_eibd_message,
  build_open_groupcon, build_eibd_message,
}
use cometvisu_knxd_fcgi.Knxd.Client.Writing.Whole.{write_all-Ends}
use cometvisu_knxd_fcgi.Knxd.Client.Writing.{write_all}
use cometvisu_knxd_fcgi.Knxd.Client.Reading.Deadline.{read_message_deadline-Ended}
use cometvisu_knxd_fcgi.Knxd.Client.Connection.{
  Link, disconnect, set_nonblocking, connect, receive_deadline, send_bytes, finish_handshake,
  handshake, open_group_socket, reopen, reconnect, is_empty, read_message_deadline,
}
use cometvisu_knxd_fcgi.Prelude.{
  ℕ, ◌≤◌, ◌≡◌, refl, inl, inr, Bool, true, false, Option, none, some, arith, Bytes, if◌then◌else◌,
  length, Bool-cases, ◌+◌, ◌<◌, ◌==◌, is_empty,
}
use cometvisu_knxd_fcgi.Knxd.Client.Reading.{Received, read_message_deadline}
use cometvisu_knxd_fcgi.Knxd.Client.Connection.Ending.{
  CalmLaw, Returns, returns, bind-Returns, earlier, disconnect-Calmer, set_nonblocking-Calmer,
  connect-Calmer,
}

module _ {W : Type 0} (os : Os W) (path_limit : ℕ) (sent received : ℕ → W → Bytes)
    (patience : W → ℕ) (law : CalmLaw os path_limit sent received patience) where
  -- Enough fuel for the loops of a call, whatever is sent or received.
  abbrev pub Fuelled : ℕ → Link W → Type 0
  Fuelled fuel l = 65537 + patience l.world < fuel

  send_bytes_step :
      (fuel fd : ℕ) (bytes : Bytes) (l : Link W) (ok : Bool) (w : W)
      → write_all os fuel fd bytes l.world ≡ some (ok, w)
      → send_bytes os path_limit fuel fd bytes l ≡ some (ok, record l { world = w })
  unfolding send_bytes
  send_bytes_step fuel fd bytes l ok w e = rw (send_bytes, e)

  pub send_bytes-Returns :
      (fuel fd : ℕ) (bytes : Bytes) (l : Link W)
      → Fuelled fuel l
      → length bytes ≤ 65537
      → Returns os path_limit sent received patience (send_bytes os path_limit fuel fd bytes l) l
  unfolding send_bytes
  send_bytes-Returns fuel fd bytes l enough short =
      let e = write_all-Ends os sent patience fuel fd bytes l.world law.writing (omega arith) in
      record {
        value = e.ok;
        after = record l { world = e.world };
        ended = send_bytes_step fuel fd bytes l e.ok e.world e.ended;
        calmer = e.calm;
      }

  receive_deadline_step :
      (fuel fd : ℕ) (l : Link W) (r : Received W)
      → read_message_deadline os fuel fd l.client.read_buffer l.client.handshake_timeout_ms l.world
        ≡ some r
      → receive_deadline os path_limit fuel fd l
        ≡ some (
          r.message,
          record { client = record l.client { read_buffer = r.buffer }; world = r.world },
        )
  unfolding receive_deadline
  receive_deadline_step fuel fd l r e = rw (receive_deadline, e)

  receive_deadline-Returns :
      (fuel fd : ℕ) (l : Link W)
      → Fuelled fuel l
      → Returns os path_limit sent received patience (receive_deadline os path_limit fuel fd l) l
  unfolding receive_deadline
  receive_deadline-Returns fuel fd l enough =
      let e =
        read_message_deadline-Ended os received patience fuel fd l.client.read_buffer
          l.client.handshake_timeout_ms l.world law.reading (omega arith) (omega arith) in
      record {
        value = e.outcome.message;
        after = record {
          client = record l.client { read_buffer = e.outcome.buffer };
          world = e.outcome.world;
        };
        ended = receive_deadline_step fuel fd l e.outcome e.ended;
        calmer = e.calm;
      }

  parsed-Returns :
      (eib : EibTypes) (resp : Bytes) (l : Link W) (r : ParseResult)
      → parse_eibd_message resp ≡ r
      → Returns os path_limit sent received patience
          (finish_handshake os path_limit eib (some resp) l)
          l
  unfolding finish_handshake
  parsed-Returns eib resp l rejected e =
      rw (finish_handshake, e)
        (returns os path_limit sent received patience false l l (omega arith))
  parsed-Returns eib resp l undefined_behaviour e =
      rw (finish_handshake, e)
        (returns os path_limit sent received patience false l l (omega arith))
  parsed-Returns eib resp l (parsed resp_type data_) e =
      rw (finish_handshake, e)
        (returns os path_limit sent received patience (resp_type == eib.open_groupcon) l _
          (omega arith))

  finish-Returns :
      (eib : EibTypes) (answer : Option Bytes) (l : Link W)
      → Returns os path_limit sent received patience (finish_handshake os path_limit eib answer l) l
  unfolding finish_handshake
  finish-Returns eib none l = returns os path_limit sent received patience false l l (omega arith)
  finish-Returns eib (some resp) l = parsed-Returns eib resp l (parse_eibd_message resp) refl

  length-open_groupcon :
      (eib : EibTypes) (write_only : Bool) → length (build_open_groupcon eib write_only) ≡ 7
  unfolding build_open_groupcon build_eibd_message
  length-open_groupcon eib write_only = refl

  answer-Returns :
      (fuel : ℕ) (eib : EibTypes) (fd : ℕ) (ok : Bool) (l : Link W)
      → Fuelled fuel l
      → Returns os path_limit sent received patience
          ((if ok
              then receive_deadline os path_limit fuel fd >>= finish_handshake os path_limit eib
              else give false)
            l)
          l
  answer-Returns fuel eib fd true l enough =
      bind-Returns os path_limit sent received patience (receive_deadline os path_limit fuel fd)
        (finish_handshake os path_limit eib) l (receive_deadline-Returns fuel fd l enough)
        (λ a l' h. finish-Returns eib a l')
  answer-Returns fuel eib fd false l enough =
      returns os path_limit sent received patience false l l (omega arith)

  handshake-Returns :
      (fuel : ℕ) (eib : EibTypes) (fd : ℕ) (write_only : Bool) (l : Link W)
      → Fuelled fuel l
      → Returns os path_limit sent received patience
          (handshake os path_limit fuel eib fd write_only l)
          l
  unfolding handshake
  handshake-Returns fuel eib fd write_only l enough =
      let l' : Link W = record l { client = record l.client { write_only = write_only } } in
      earlier os path_limit sent received patience _ l l' (omega arith) (
        bind-Returns os path_limit sent received patience
          (send_bytes os path_limit fuel fd (build_open_groupcon eib write_only)) _ l'
          (send_bytes-Returns fuel fd (build_open_groupcon eib write_only) l' enough
            (omega (arith, length-open_groupcon eib write_only)))
          (λ ok l'' h. answer-Returns fuel eib fd ok l'' (omega arith)))

  open_with :
      (fuel : ℕ) (eib : EibTypes) (write_only : Bool) (l : Link W) (fd : Option ℕ)
      → Fuelled fuel l
      → Returns os path_limit sent received patience {A = Bool}
          (elim fd [
            | none ↦ some (false, l)
            | some n ↦ handshake os path_limit fuel eib n write_only l
          ])
          l
  open_with fuel eib write_only l none enough =
      returns os path_limit sent received patience false l l (omega arith)
  open_with fuel eib write_only l (some n) enough = handshake-Returns fuel eib n write_only l enough

  open_group_socket-Returns :
      (fuel : ℕ) (eib : EibTypes) (write_only : Bool) (l : Link W)
      → Fuelled fuel l
      → Returns os path_limit sent received patience
          (open_group_socket os path_limit fuel eib write_only l)
          l
  unfolding open_group_socket
  open_group_socket-Returns fuel eib write_only l enough =
      open_with fuel eib write_only l l.client.fd enough

  reopened-Returns :
      (ok : Bool) (l : Link W)
      → Returns os path_limit sent received patience
          ((if ok
              then change (set_nonblocking os path_limit true) >> give true
              else change (disconnect os path_limit) >> give false)
            l)
          l
  reopened-Returns true l =
      returns os path_limit sent received patience true l (set_nonblocking os path_limit true l)
        (set_nonblocking-Calmer os path_limit sent received patience law true l)
  reopened-Returns false l =
      returns os path_limit sent received patience false l (disconnect os path_limit l)
        (disconnect-Calmer os path_limit sent received patience law l)

  reopen-Returns :
      (fuel : ℕ) (eib : EibTypes) (write_only : Bool) (l : Link W)
      → Fuelled fuel l
      → Returns os path_limit sent received patience (reopen os path_limit fuel eib write_only l) l
  unfolding reopen
  reopen-Returns fuel eib write_only l enough =
      bind-Returns os path_limit sent received patience
        (open_group_socket os path_limit fuel eib write_only) _ l
        (open_group_socket-Returns fuel eib write_only l enough) (λ ok l' h. reopened-Returns ok l')

  connected-Returns :
      (fuel : ℕ) (eib : EibTypes) (write_only up : Bool) (l : Link W)
      → Fuelled fuel l
      → Returns os path_limit sent received patience
          (if up then reopen os path_limit fuel eib write_only l else some (false, l))
          l
  connected-Returns fuel eib write_only true l enough = reopen-Returns fuel eib write_only l enough
  connected-Returns fuel eib write_only false l enough =
      returns os path_limit sent received patience false l l (omega arith)

  pub reconnect-Returns :
      (fuel : ℕ) (eib : EibTypes) (l : Link W)
      → Fuelled fuel l
      → Returns os path_limit sent received patience (reconnect os path_limit fuel eib l) l
  unfolding reconnect
  reconnect-Returns fuel eib l enough =
      let cleared = disconnect os path_limit l in
      let p = disconnect-Calmer os path_limit sent received patience law l in
      let (up, l₁) = connect os path_limit l.client.socket_path cleared in
      let q =
        connect-Calmer os path_limit sent received patience law l.client.socket_path cleared in
      elim (Bool-cases (is_empty l.client.socket_path)) [
        | inl empty ↦
            rw empty (returns os path_limit sent received patience false l l (omega arith))
        | inr some_path ↦ rw some_path (
            earlier os path_limit sent received patience _ l l₁ (omega arith)
              (connected-Returns fuel eib l.client.write_only up l₁ (omega arith)))
      ]

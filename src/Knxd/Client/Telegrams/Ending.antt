-- ===== src/Knxd/Client/Telegrams/Ending.antt =====
-- `send_group_packet` of src/knxd/knxd_client.cpp returns.
use cometvisu_knxd_fcgi.Prelude.Program.{◌>>◌, give, change}
use cometvisu_knxd_fcgi.Knxd.Client.Os.{Os}
use cometvisu_knxd_fcgi.Knxd.Message.{EibTypes, build_group_packet, build_eibd_message}
use cometvisu_knxd_fcgi.Knxd.Client.Connection.{Link, is_connected, reconnect, send_bytes}
use cometvisu_knxd_fcgi.Knxd.Client.Connection.Ending.{
  CalmLaw, Returns, returns, bind-Returns, earlier,
}
use cometvisu_knxd_fcgi.Knxd.Client.Connection.Reopening.{
  Fuelled, send_bytes-Returns, reconnect-Returns,
}
use cometvisu_knxd_fcgi.Knxd.Client.Telegrams.{
  throttle, note_write, send_packet, retry_packet, write_packet, ensure_group_socket,
  send_group_packet,
}
use cometvisu_knxd_fcgi.Prelude.{
  ℕ, ◌+◌, ◌-◌, ◌≤◌, ◌<◌, ◌≡◌, inl, inr, Bool, true, false, ◌&&◌, Option, none, some, arith, Bytes,
  if◌then◌else◌, length, Bool-cases,
}

module _ {W : Type 0} (os : Os W) (path_limit : ℕ) (sent received : ℕ → W → Bytes)
    (patience : W → ℕ) (law : CalmLaw os path_limit sent received patience) where
  throttle-calmer : (last : ℕ) (w : W) → patience (throttle os path_limit last w) ≤ patience w
  unfolding throttle
  throttle-calmer last w =
      let (now, w') = os.clock w in
      let p = law.clocks w in let q = law.sleeps (50_000_000 - (now - last)) w' in ground arith

  length-group_packet :
      (eib : EibTypes) (addr : ℕ) (apdu : Bytes)
      → length (build_group_packet eib addr apdu) ≡ 6 + length apdu
  unfolding build_group_packet build_eibd_message
  length-group_packet eib addr apdu = omega arith

  module _ (fuel : ℕ) (eib : EibTypes) (addr : ℕ) (apdu : Bytes) (short : length apdu ≤ 65531) where
    packet_with :
        (fd : Option ℕ) (l : Link W)
        → Fuelled os path_limit sent received patience law fuel l
        → Returns os path_limit sent received patience {A = Bool}
            (elim fd [
              | none ↦ some (false, l)
              | some n ↦ send_bytes os path_limit fuel n (build_group_packet eib addr apdu) l
            ])
            l
    packet_with none l enough = returns os path_limit sent received patience false l l (omega arith)
    packet_with (some n) l enough =
        send_bytes-Returns os path_limit sent received patience law fuel n
          (build_group_packet eib addr apdu) l enough
          (omega (arith, length-group_packet eib addr apdu))

    send_packet-Returns :
        (l : Link W)
        → Fuelled os path_limit sent received patience law fuel l
        → Returns os path_limit sent received patience
            (send_packet os path_limit fuel eib addr apdu l)
            l
    unfolding send_packet
    send_packet-Returns l enough = packet_with l.client.fd l enough

    after_reconnect :
        (up : Bool) (l : Link W)
        → Fuelled os path_limit sent received patience law fuel l
        → Returns os path_limit sent received patience
            ((if up then send_packet os path_limit fuel eib addr apdu else give false) l)
            l
    after_reconnect true l enough = send_packet-Returns l enough
    after_reconnect false l enough =
        returns os path_limit sent received patience false l l (omega arith)

    retry_packet-Returns :
        (l : Link W)
        → Fuelled os path_limit sent received patience law fuel l
        → Returns os path_limit sent received patience
            (retry_packet os path_limit fuel eib addr apdu l)
            l
    unfolding retry_packet
    retry_packet-Returns l enough =
        bind-Returns os path_limit sent received patience (reconnect os path_limit fuel eib) _ l
          (reconnect-Returns os path_limit sent received patience law fuel eib l enough)
          (λ up l' h. after_reconnect up l' (omega arith))

    after_first :
        (ok : Bool) (l : Link W)
        → Fuelled os path_limit sent received patience law fuel l
        → Returns os path_limit sent received patience
            ((if ok then give true else retry_packet os path_limit fuel eib addr apdu) l)
            l
    after_first true l enough = returns os path_limit sent received patience true l l (omega arith)
    after_first false l enough = retry_packet-Returns l enough

    noted :
        (done : Bool) (l : Link W)
        → Returns os path_limit sent received patience
            ((change (note_write os path_limit) >> give done) l)
            l
    noted done l =
        returns os path_limit sent received patience done l (note_write os path_limit l)
          (unfold note_write in law.clocks l.world)

    write_packet-Returns :
        (l : Link W)
        → Fuelled os path_limit sent received patience law fuel l
        → Returns os path_limit sent received patience
            (write_packet os path_limit fuel eib addr apdu l)
            l
    unfolding write_packet
    write_packet-Returns l enough =
        bind-Returns os path_limit sent received patience
          (send_packet os path_limit fuel eib addr apdu) _ l (send_packet-Returns l enough)
          (λ ok l' h.
            bind-Returns os path_limit sent received patience
              (if ok then give true else retry_packet os path_limit fuel eib addr apdu) _ l'
              (after_first ok l' (omega arith)) (λ done l'' k. noted done l''))

    ensure-Returns :
        (l : Link W)
        → Fuelled os path_limit sent received patience law fuel l
        → Returns os path_limit sent received patience
            (ensure_group_socket os path_limit fuel eib l)
            l
    unfolding ensure_group_socket
    ensure-Returns l enough =
        elim (Bool-cases (is_connected l.client && l.client.group_socket_open)) [
          | inl up ↦ rw up (returns os path_limit sent received patience true l l (omega arith))
          | inr down ↦
              rw down (reconnect-Returns os path_limit sent received patience law fuel eib l enough)
        ]

    after_ensure :
        (up : Bool) (l : Link W)
        → Fuelled os path_limit sent received patience law fuel l
        → Returns os path_limit sent received patience
            ((if up then write_packet os path_limit fuel eib addr apdu else give false) l)
            l
    after_ensure true l enough = write_packet-Returns l enough
    after_ensure false l enough =
        returns os path_limit sent received patience false l l (omega arith)

    -- For an APDU of at most 65531 bytes, where calls are interrupted or find nothing to read or no room to
    -- write only so often, and with more fuel than 65537 and this number, `send_group_packet` returns in
    -- every state of the connection, also when the handshake gets no answer, a late one or a wrong one.
    pub send_group_packet-Returns :
        (l : Link W)
        → 65537 + patience l.world < fuel
        → Returns os path_limit sent received patience
            (send_group_packet os path_limit fuel eib addr apdu l)
            l
    unfolding send_group_packet
    send_group_packet-Returns l enough =
        let l' : Link W = record l {
          world = throttle os path_limit l.client.last_group_write l.world;
        } in
        let p = throttle-calmer l.client.last_group_write l.world in
        earlier os path_limit sent received patience _ l l' p (
          bind-Returns os path_limit sent received patience
            (ensure_group_socket os path_limit fuel eib) _ l' (ensure-Returns l' (omega arith))
            (λ up l'' h. after_ensure up l'' (omega arith)))

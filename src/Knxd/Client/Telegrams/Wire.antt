-- ===== src/Knxd/Client/Telegrams/Wire.antt =====
-- What `send_group_packet` of src/knxd/knxd_client.cpp puts on an open connection.
use cometvisu_knxd_fcgi.Prelude.Int.{pos}
use cometvisu_knxd_fcgi.Prelude.Program.{Program, ◌>>=◌}
use cometvisu_knxd_fcgi.Knxd.Message.{EibTypes, build_group_packet}
use cometvisu_knxd_fcgi.Knxd.Client.Os.{Os, WriteCall, PollCall, Revents, pollout}
use cometvisu_knxd_fcgi.Knxd.Client.Writing.{after_poll, after_write, write_all}
use cometvisu_knxd_fcgi.Knxd.Client.Writing.Whole.{WriteLaw, write_all-Ends}
use cometvisu_knxd_fcgi.Knxd.Client.Connection.{Link, send_bytes, is_connected}
use cometvisu_knxd_fcgi.Knxd.Client.Telegrams.{
  throttle, note_write, send_packet, write_packet, ensure_group_socket, send_group_packet,
  min_write_interval,
}
use cometvisu_knxd_fcgi.Prelude.{
  ℕ, zero, suc, ◌≤◌, ◌≡◌, ◌≢◌, refl, ap, ◌∙◌, Bool, true, Option, none, some, [], ◌∷◌, Bytes, drop,
  ◌+◌, ◌-◌, ◌<◌, sym, inl, inr, ◌++◌, arith, ltb, length, Bool-cases, append-nil,
}

-- A program that ends goes on with its rest.
bind-some :
    {S A B : Type 0} (m : Program S A) (k : A → Program S B) (s s' : S) (a : A) (o : Option (B × S))
    → m s ≡ some (a, s')
    → k a s' ≡ o
    → (m >>= k) s ≡ o
bind-some {S = S} {A = A} {B = B} m k s s' a o e f =
    ap
      (λ (r : Option (A × S)).
        let after : Option (B × S) = elim r [ none ↦ none | some (b, t) ↦ k b t ] in after)
      e
    ∙ f

module _ {W : Type 0} (os : Os W) (path_limit : ℕ) (sent : ℕ → W → Bytes) (patience : W → ℕ) where
  -- No write fails, a full socket has room in time, and the clock and `sleep` send nothing.
  pub record ReliableLaw : Type 0 where
    pub writing : WriteLaw os sent patience
    pub accepts :
        (fd b : ℕ) (bytes : Bytes) (w : W) → (os.write fd (b ∷ bytes) w).0 ≢ WriteCall.failed
    pub has_room :
        (fd : ℕ) (w : W) → (r : Revents) × ((os.poll fd pollout (pos 5000) w).0 ≡ PollCall.ready r)
    pub clocks :
        (fd : ℕ) (w : W)
        → (sent fd (os.clock w).1 ≡ sent fd w) × (patience (os.clock w).1 ≤ patience w)
    pub sleeps :
        (fd n : ℕ) (w : W)
        → (sent fd (os.sleep n w) ≡ sent fd w) × (patience (os.sleep n w) ≤ patience w)

  module _ (law : ReliableLaw) where
    after_poll-true :
        (next : Bytes → W → Option (Bool × W)) (bytes : Bytes) (call : PollCall × W) (r : Revents)
        (ok : Bool) (w' : W)
        → call.0 ≡ PollCall.ready r
        → ((b : Bytes) (v : W) → next b v ≡ some (ok, w') → ok ≡ true)
        → after_poll os next bytes call ≡ some (ok, w')
        → ok ≡ true
    after_poll-true next bytes (PollCall.ready s, v) r ok w' e h g = h bytes v g
    after_poll-true next bytes (PollCall.timed_out, v) r ok w' e h g = absurd cc
    after_poll-true next bytes (PollCall.interrupted, v) r ok w' e h g = absurd cc
    after_poll-true next bytes (PollCall.failed, v) r ok w' e h g = absurd cc

    after_write-true :
        (next : Bytes → W → Option (Bool × W)) (fd : ℕ) (bytes : Bytes) (call : WriteCall × W)
        (ok : Bool) (w' : W)
        → call.0 ≢ WriteCall.failed
        → ((b : Bytes) (v : W) → next b v ≡ some (ok, w') → ok ≡ true)
        → after_write os next fd bytes call ≡ some (ok, w')
        → ok ≡ true
    after_write-true next fd bytes (WriteCall.wrote n, v) ok w' e h g = h (drop n bytes) v g
    after_write-true next fd bytes (WriteCall.interrupted, v) ok w' e h g = h bytes v g
    after_write-true next fd bytes (WriteCall.not_ready, v) ok w' e h g =
        let (r, room) = law.has_room fd v in
        after_poll-true next bytes (os.poll fd pollout (pos 5000) v) r ok w' room h g
    after_write-true next fd bytes (WriteCall.failed, v) ok w' e h g = elim (e refl) [ ]

    write_all-true :
        (fuel fd : ℕ) (bytes : Bytes) (w : W) (ok : Bool) (w' : W)
        → write_all os fuel fd bytes w ≡ some (ok, w')
        → ok ≡ true
    unfolding write_all
    write_all-true zero fd bytes w ok w' e = absurd cc
    write_all-true (suc fuel) fd [] w ok w' e = cc
    write_all-true (suc fuel) fd (b ∷ s) w ok w' e =
        after_write-true (write_all os fuel fd) fd (b ∷ s) (os.write fd (b ∷ s) w) ok w'
          (law.accepts fd b s w) (λ c v. write_all-true fuel fd c v ok w') e

    -- All bytes are sent.
    record Delivers (outcome : Option (Bool × W)) (fd : ℕ) (bytes : Bytes) (w : W) : Type 0 where
      world : W
      ended : outcome ≡ some (true, world)
      grown : sent fd world ≡ sent fd w ++ bytes

    write_all-Delivers :
        (fuel fd : ℕ) (bytes : Bytes) (w : W)
        → length bytes + patience w < fuel
        → Delivers (write_all os fuel fd bytes w) fd bytes w
    write_all-Delivers fuel fd bytes w enough =
        let e = write_all-Ends os sent patience fuel fd bytes w law.writing enough in
        let good = write_all-true fuel fd bytes w e.ok e.world e.ended in
        let whole : e.sends.part ≡ bytes =
          sym (append-nil e.sends.part)
          ∙ ap (λ (rest : Bytes). e.sends.part ++ rest) (sym (e.sends.all_sent good))
          ∙ e.sends.split in
        record {
          world = e.world;
          ended = e.ended ∙ ap (λ (ok : Bool). some (ok, e.world)) good;
          grown = e.sends.sends ∙ ap (λ (part : Bytes). sent fd w ++ part) whole;
        }

    throttle-sent :
        (fd last : ℕ) (w : W)
        → (sent fd (throttle os path_limit last w) ≡ sent fd w)
          × (patience (throttle os path_limit last w) ≤ patience w)
    unfolding throttle
    throttle-sent fd last w =
        let (now, w') = os.clock w in
        let (same, calm) = law.clocks fd w in
        let (same', calm') = law.sleeps fd (min_write_interval - (now - last)) w' in
        elim (Bool-cases (ltb 0 last)) [
          | inl e ↦ elim (Bool-cases (ltb (now - last) min_write_interval)) [
            | inl f ↦ rw (e, f) (same' ∙ same, omega arith)
            | inr f ↦ rw (e, f) (same, calm)
          ]
          | inr e ↦ rw e (refl, omega arith)
        ]

    -- On an open connection.
    send_bytes-true :
        (fuel fd : ℕ) (bytes : Bytes) (l : Link W) (w : W)
        → write_all os fuel fd bytes l.world ≡ some (true, w)
        → send_bytes os path_limit fuel fd bytes l
          ≡ some (true, (let l' : Link W = record l { world = w } in l'))
    unfolding send_bytes
    send_bytes-true fuel fd bytes l w e = rw (send_bytes, e)

    send_packet-open :
        (fuel : ℕ) (eib : EibTypes) (group_addr : ℕ) (apdu : Bytes) (fd : ℕ) (l : Link W)
        → l.client.fd ≡ some fd
        → send_packet os path_limit fuel eib group_addr apdu l
          ≡ send_bytes os path_limit fuel fd (build_group_packet eib group_addr apdu) l
    unfolding send_packet
    send_packet-open fuel eib group_addr apdu fd l e = rw e

    write_packet-sends :
        (fuel : ℕ) (eib : EibTypes) (group_addr : ℕ) (apdu : Bytes) (fd : ℕ) (l : Link W)
        → l.client.fd ≡ some fd
        → length (build_group_packet eib group_addr apdu) + patience l.world < fuel
        → (l' : Link W) × ((write_packet os path_limit fuel eib group_addr apdu l ≡ some (true, l'))
            × (sent fd l'.world ≡ sent fd l.world ++ build_group_packet eib group_addr apdu))
    unfolding write_packet note_write
    write_packet-sends fuel eib group_addr apdu fd l is_up enough =
        let d =
          write_all-Delivers fuel fd (build_group_packet eib group_addr apdu) l.world enough in
        let l1 : Link W = record l { world = d.world } in
        let first =
          send_packet-open fuel eib group_addr apdu fd l is_up
          ∙ send_bytes-true fuel fd (build_group_packet eib group_addr apdu) l d.world d.ended in
        (
          note_write os path_limit l1,
          (
            bind-some (send_packet os path_limit fuel eib group_addr apdu) _ l l1 true _ first refl,
            (law.clocks fd d.world).0 ∙ d.grown,
          ),
        )

    ensure_group_socket-open :
        (fuel : ℕ) (eib : EibTypes) (fd : ℕ) (l : Link W)
        → l.client.fd ≡ some fd
        → l.client.group_socket_open ≡ true
        → ensure_group_socket os path_limit fuel eib l ≡ some (true, l)
    unfolding ensure_group_socket is_connected
    ensure_group_socket-open fuel eib fd l e g = rw (e, g)

    -- On a connection with an open group socket, where no write fails and a full socket has room
    -- in time, send_group_packet returns true, and what was sent has grown by exactly one frame,
    -- that of the packet; writes may be cut short, interrupted or put off.
    pub send_group_packet-sends :
        (fuel : ℕ) (eib : EibTypes) (group_addr : ℕ) (apdu : Bytes) (fd : ℕ) (l : Link W)
        → l.client.fd ≡ some fd
        → l.client.group_socket_open ≡ true
        → length (build_group_packet eib group_addr apdu) + patience l.world < fuel
        → (l' : Link W) × ((send_group_packet os path_limit fuel eib group_addr apdu l
              ≡ some (true, l'))
            × (sent fd l'.world ≡ sent fd l.world ++ build_group_packet eib group_addr apdu))
    unfolding send_group_packet
    send_group_packet-sends fuel eib group_addr apdu fd l is_up is_open enough =
        let w1 = throttle os path_limit l.client.last_group_write l.world in
        let l1 : Link W = record l { world = w1 } in
        let (same, calm) = throttle-sent fd l.client.last_group_write l.world in
        let (l', (ended, grown)) =
          write_packet-sends fuel eib group_addr apdu fd l1 is_up (omega arith) in
        (
          l',
          (
            bind-some (ensure_group_socket os path_limit fuel eib) _ l1 l1 true _
                (ensure_group_socket-open fuel eib fd l1 is_up is_open) ended,
            grown ∙ ap (λ (b : Bytes). b ++ build_group_packet eib group_addr apdu) same,
          ),
        )

-- ===== src/Tests/Wire.antt =====
-- `send_group_packet` of src/knxd/knxd_client.cpp on an open connection, with a small system.
use cometvisu_knxd_fcgi.Knxd.Message.{EibTypes, build_group_packet, build_eibd_message}
use cometvisu_knxd_fcgi.Knxd.Client.Os.{Os, WriteCall, ReadCall, ConnectCall, PollCall}
use cometvisu_knxd_fcgi.Knxd.Client.Writing.Whole.{Writes}
use cometvisu_knxd_fcgi.Knxd.Client.Connection.{Link, new_client}
use cometvisu_knxd_fcgi.Knxd.Client.Telegrams.{send_group_packet}
use cometvisu_knxd_fcgi.Knxd.Client.Telegrams.Wire.{ReliableLaw, send_group_packet-sends}
use cometvisu_knxd_fcgi.Prelude.{
  ℕ, zero, suc, ◌+◌, ◌<◌, ◌≡◌, ◌≢◌, refl, true, false, none, some, [], ◌∷◌, ◌++◌, arith, Bytes,
  length,
}

-- The bytes sent, how often `write` finds the socket full, and the time.
record Peer : Type 0 where
  sent : Bytes
  full : ℕ
  time : ℕ

abbrev write_one : Bytes → ℕ → Peer → WriteCall × Peer
write_one [] n w = (WriteCall.failed, w)
write_one (b ∷ s) zero w = (WriteCall.wrote 1, record w { sent = w.sent ++ b ∷ [] })
write_one (b ∷ s) (suc n) w = (WriteCall.not_ready, record w { full = n })

abbrev eager : Os Peer
eager = record {
  socket = λ w. (none, w);
  connect = λ fd path w. (ConnectCall.refused, w);
  socket_error = λ fd w. (false, w);
  has_flags = λ fd w. true;
  set_nonblock = λ fd enable w. w;
  close = λ fd w. w;
  write = λ fd bytes w. write_one bytes w.full w;
  read = λ fd n w. (ReadCall.end_of_file, w);
  poll = λ fd event timeout w. (
    PollCall.ready
        (record { readable = false; hung_up = false; in_error = false; invalid = false }),
    w,
  );
  clock = λ w. (w.time, w);
  sleep = λ n w. record w { time = w.time + n };
}

by_bytes :
    (bytes : Bytes) (full : ℕ) (w : Peer)
    → w.full ≡ full
    → (let (call, w') = write_one bytes full w in Writes bytes w.sent w'.sent w.full w'.full call)
by_bytes [] full w h = (refl, omega arith)
by_bytes (b ∷ s) zero w h = (omega arith, omega arith, refl, omega arith)
by_bytes (b ∷ s) (suc n) w h = (refl, omega arith)

accepts_more :
    (b : ℕ) (bytes : Bytes) (full : ℕ) (w : Peer)
    → (write_one (b ∷ bytes) full w).0 ≢ WriteCall.failed
accepts_more b bytes zero w e = absurd cc
accepts_more b bytes (suc n) w e = absurd cc

eager-ReliableLaw : ReliableLaw eager 108 (λ fd w. w.sent) (λ w. w.full)
eager-ReliableLaw = record {
  writing = record {
    writes = λ fd bytes w. by_bytes bytes w.full w refl;
    polls = λ fd event timeout w. (refl, omega arith);
  };
  accepts = λ fd b bytes w. accepts_more b bytes w.full w;
  has_room = λ fd w.
      (record { readable = false; hung_up = false; in_error = false; invalid = false }, refl);
  clocks = λ fd w. (refl, omega arith);
  sleeps = λ fd n w. (refl, omega arith);
}

abbrev types : EibTypes
types = record { open_groupcon = 0x26; group_packet = 0x27; apdu_packet = 0x25 }

abbrev connection : Link Peer
connection = record {
  client = record new_client { fd = some 3; group_socket_open = true };
  world = record { sent = []; full = 2; time = 7 };
}

enough_fuel : length (build_group_packet types 0x0a03 (0 ∷ 0x81 ∷ [])) + 2 < 20
unfolding build_group_packet build_eibd_message
enough_fuel = omega arith

send_group_packet-sends_example :
    (l' : Link Peer) × ((send_group_packet eager 108 20 types 0x0a03 (0 ∷ 0x81 ∷ []) connection
        ≡ some (true, l'))
      × (l'.world.sent ≡ [] ++ build_group_packet types 0x0a03 (0 ∷ 0x81 ∷ [])))
send_group_packet-sends_example =
    send_group_packet-sends eager 108 (λ fd w. w.sent) (λ w. w.full) eager-ReliableLaw 20 types
      0x0a03 (0 ∷ 0x81 ∷ []) 3 connection refl refl enough_fuel

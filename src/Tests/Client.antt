-- ===== src/Tests/Client.antt =====
-- The theorems on src/knxd/knxd_client.cpp with a small world in place of the system.
use cometvisu_knxd_fcgi.Prelude.Int.{pos}
use cometvisu_knxd_fcgi.Knxd.Message.{EibTypes}
use cometvisu_knxd_fcgi.Knxd.Client.Reading.{read_message_deadline}
use cometvisu_knxd_fcgi.Knxd.Client.Reading.Deadline.{
  TimedLaw, Waits, Ended, read_message_deadline-Ended,
}
use cometvisu_knxd_fcgi.Knxd.Client.Connection.Ending.{CalmLaw, Returns}
use cometvisu_knxd_fcgi.Knxd.Client.Telegrams.{send_group_packet}
use cometvisu_knxd_fcgi.Knxd.Client.Telegrams.Ending.{send_group_packet-Returns}
use cometvisu_knxd_fcgi.Knxd.Client.Os.{Os, WriteCall, ReadCall, ConnectCall, PollCall}
use cometvisu_knxd_fcgi.Knxd.Client.Connection.{Link, new_client}
use cometvisu_knxd_fcgi.Knxd.Client.Reading.Stream
use cometvisu_knxd_fcgi.Knxd.Client.Writing.Whole
use cometvisu_knxd_fcgi.Knxd.Client.Reading.Stream.{ReadLaw, Reads, read_message-Ends}
use cometvisu_knxd_fcgi.Knxd.Client.Writing.Whole.{WriteLaw, Writes, write_all-Ends}
use cometvisu_knxd_fcgi.Knxd.Client.Writing.{write_all}
use cometvisu_knxd_fcgi.Knxd.Client.Telegrams.{throttle, note_write}
use cometvisu_knxd_fcgi.Knxd.Client.Telegrams.Sending.{ClockLaw, throttle-spaces}
use cometvisu_knxd_fcgi.Prelude.{
  ℕ, zero, suc, ◌+◌, ◌≤◌, refl, true, false, some, [], ◌∷◌, ◌++◌, arith, Bytes, codes,
}

record World : Type 0 where
  incoming : Bytes
  got : Bytes
  sent : Bytes
  time : ℕ

-- One byte comes with a call, and one byte goes.
abbrev read_byte : ℕ → Bytes → World → ReadCall × World
read_byte zero incoming w = (ReadCall.end_of_file, w)
read_byte (suc n) [] w = (ReadCall.end_of_file, w)
read_byte (suc n) (b ∷ s) w =
    (ReadCall.got (b ∷ []), record w { incoming = s; got = w.got ++ b ∷ [] })

abbrev write_byte : Bytes → World → WriteCall × World
write_byte [] w = (WriteCall.failed, w)
write_byte (b ∷ s) w = (WriteCall.wrote 1, record w { sent = w.sent ++ b ∷ [] })

abbrev small : Os World
small = record {
  socket = λ w. (some 3, w);
  connect = λ fd path w. (ConnectCall.established, w);
  socket_error = λ fd w. (false, w);
  has_flags = λ fd w. true;
  set_nonblock = λ fd enable w. w;
  close = λ fd w. w;
  write = λ fd bytes w. write_byte bytes w;
  read = λ fd n w. read_byte n w.incoming w;
  poll = λ fd event timeout w. (PollCall.timed_out, w);
  clock = λ w. (w.time, w);
  sleep = λ n w. record w { time = w.time + n };
}

abbrev world : World
world = record { incoming = 0 ∷ 2 ∷ 0 ∷ 0x26 ∷ 9 ∷ []; got = []; sent = []; time = 7 }

small-ReadLaw : ReadLaw small (λ fd w. w.got)
small-ReadLaw = record { reads = λ fd n w. by_incoming n w.incoming w }
  where
    by_incoming :
        (n : ℕ) (incoming : Bytes) (w : World)
        → (let (call, w') = read_byte n incoming w in Reads n w.got w'.got call)
    by_incoming zero incoming w = refl
    by_incoming (suc n) [] w = refl
    by_incoming (suc n) (b ∷ s) w = (omega arith, omega arith, refl)

small-WriteLaw : WriteLaw small (λ fd w. w.sent) (λ w. 0)
small-WriteLaw = record {
  writes = λ fd bytes w. by_bytes bytes w;
  polls = λ fd event timeout w. (refl, omega arith);
}
  where
    by_bytes :
        (bytes : Bytes) (w : World)
        → (let (call, w') = write_byte bytes w in Writes bytes w.sent w'.sent 0 0 call)
    by_bytes [] w = (refl, omega arith)
    by_bytes (b ∷ s) w = (omega arith, omega arith, refl, omega arith)

read_message-Ends_example : Stream.Ends small (λ fd w. w.got) 65540 3 [] world
read_message-Ends_example =
    read_message-Ends small (λ fd w. w.got) 65540 3 [] world small-ReadLaw (omega arith)
      (omega arith)

write_all-Ends_example :
    Whole.Ends small
      (λ fd w. w.sent)
      (λ w. 0)
      (write_all small 9 3 (codes "telegram") world)
      3
      (codes "telegram")
      world
write_all-Ends_example =
    write_all-Ends small (λ fd w. w.sent) (λ w. 0) 9 3 (codes "telegram") world small-WriteLaw
      (omega arith)

-- A client that still holds a descriptor.
abbrev link : Link World
link = record { client = record new_client { fd = some 2 }; world = world }

small-ClockLaw : ClockLaw small 108 (λ w. w.time)
small-ClockLaw = record { reads = λ w. (refl, omega arith); sleeps = λ n w. omega arith }

throttle-spaces_example :
    7 + 50_000_000
    ≤ (throttle small 108
        (note_write small 108 link).client.last_group_write
        (record world { time = 20 })).time
throttle-spaces_example =
    throttle-spaces small 108 (λ w. w.time) link (record world { time = 20 }) small-ClockLaw
      (omega arith) (unfold note_write in omega arith)

small-TimedLaw : TimedLaw small (λ fd w. w.got) (λ w. 0)
small-TimedLaw = record {
  reads = λ fd n w. by_incoming n w.incoming w;
  polls = λ fd event timeout w. (refl, omega arith);
  clocks = λ fd w. (refl, omega arith);
}
  where
    by_incoming :
        (n : ℕ) (incoming : Bytes) (w : World)
        → (let (call, w') = read_byte n incoming w in Reads n w.got w'.got call × Waits 0 0 call)
    by_incoming zero incoming w = (refl, omega arith)
    by_incoming (suc n) [] w = (refl, omega arith)
    by_incoming (suc n) (b ∷ s) w = ((omega arith, omega arith, refl), omega arith)

read_message_deadline-Ended_example :
    Ended small
      (λ fd w. w.got)
      (λ w. 0)
      (read_message_deadline small 65538 3 [] (pos 5000) world)
      3
      []
      world
read_message_deadline-Ended_example =
    read_message_deadline-Ended small (λ fd w. w.got) (λ w. 0) 65538 3 [] (pos 5000) world
      small-TimedLaw (omega arith) (omega arith)

small-CalmLaw : CalmLaw small 108 (λ fd w. w.sent) (λ fd w. w.got) (λ w. 0)
small-CalmLaw = record {
  writing = small-WriteLaw;
  reading = small-TimedLaw;
  sockets = λ w. omega arith;
  connects = λ fd path w. omega arith;
  asks = λ fd w. omega arith;
  sets = λ fd enable w. omega arith;
  closes = λ fd w. omega arith;
  polls = λ fd event timeout w. omega arith;
  clocks = λ w. omega arith;
  sleeps = λ n w. omega arith;
}

abbrev types : EibTypes
types = record { open_groupcon = 0x26; group_packet = 0x27; apdu_packet = 0x25 }

send_group_packet-Returns_example :
    Returns small 108
      (λ fd w. w.sent)
      (λ fd w. w.got)
      (λ w. 0)
      (send_group_packet small 108 65538 types 0x0a03 (0 ∷ 0x81 ∷ []) link)
      link
send_group_packet-Returns_example =
    send_group_packet-Returns small 108 (λ fd w. w.sent) (λ fd w. w.got) (λ w. 0) small-CalmLaw
      65538 types 0x0a03 (0 ∷ 0x81 ∷ []) (omega arith) link (omega arith)

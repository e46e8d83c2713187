-- ===== src/Knxd/Client/Reading.antt =====
-- `read_some`, `read_message` and `read_message_deadline` of src/knxd/knxd_client.cpp. The loops take
-- fuel; `none` means that it ran out.
pub mod Stream
pub mod Deadline
use cometvisu_knxd_fcgi.Prelude.Int.{ℤ, pos, negsuc}
use cometvisu_knxd_fcgi.Knxd.Client.Os.{Os, ReadCall, PollCall, pollin}
use cometvisu_knxd_fcgi.Prelude.{
  ℕ, zero, suc, ◌+◌, ◌-◌, ◌*◌, ◌/◌, true, false, Option, none, some, [], ◌++◌, Bytes, ltb, leb,
  if◌then◌else◌, length, drop, max,
}
use cometvisu_knxd_fcgi.Knxd.Message.{try_extract_message}

-- `kMaxReadBufferSize`
abbrev pub max_read_buffer_size : ℕ
max_read_buffer_size = 1048576

pub data ReadOutcome : Type 0 where
  data_ eof would_block error : ReadOutcome

-- Makes room for `n` more bytes.
unfoldable pub make_room : ℕ → Bytes → Bytes
make_room n buffer =
    let new_size = length buffer + n in
    let excess = new_size - max_read_buffer_size in
    if ltb max_read_buffer_size new_size
    then if leb (length buffer) excess then [] else drop excess buffer
    else buffer

unfoldable pub read_result : ReadCall → Bytes → ReadOutcome × Bytes
read_result (ReadCall.got bytes) buffer = (data_, make_room (length bytes) buffer ++ bytes)
read_result ReadCall.end_of_file buffer = (eof, buffer)
read_result ReadCall.not_ready buffer = (would_block, buffer)
read_result ReadCall.interrupted buffer = (would_block, buffer)
read_result ReadCall.failed buffer = (error, buffer)

-- What a call that waits for a message leaves: the message, the buffer, and the outside.
pub record Received (W : Type 0) : Type 0 where
  pub message : Option Bytes
  pub buffer : Bytes
  pub world : W

abbrev pub leave : {W : Type 0} → Option Bytes → Bytes → W → Option (Received W)
leave message buffer w = some (record { message = message; buffer = buffer; world = w })

module _ {W : Type 0} (os : Os W) where
  unfoldable pub read_some : ℕ → Bytes → W → (ReadOutcome × Bytes) × W
  read_some fd buffer w = let (call, w') = os.read fd 4096 w in (read_result call buffer, w')

  -- One round of the loop of `read_message`, the rest of which is `next`; what `read_some` left, and
  -- before that what `try_extract_message` left.
  abbrev pub after_some :
      (Bytes → W → Option (Received W)) → (ReadOutcome × Bytes) × W → Option (Received W)
  after_some next ((data_, buffer), w) = next buffer w
  after_some next ((_, buffer), w) = leave none buffer w

  abbrev pub read_round :
      (Bytes → W → Option (Received W)) → ℕ → W → Option Bytes × Bytes → Option (Received W)
  read_round next fd w (some m, rest) = leave (some m) rest w
  read_round next fd w (none, rest) = after_some next (read_some fd rest w)

  -- The loop of `read_message`. What `shrink_if_large` does cannot be seen.
  unfoldable pub read_message : ℕ → ℕ → Bytes → W → Option (Received W)
  read_message zero fd buffer w = none
  read_message (suc fuel) fd buffer w =
      read_round (read_message fuel fd) fd w (try_extract_message buffer)

  -- The same for `read_message_deadline`.
  abbrev pub after_attempt :
      (Bytes → W → Option (Received W)) → (ReadOutcome × Bytes) × W → Option (Received W)
  after_attempt next ((data_, buffer), w) = next buffer w
  after_attempt next ((would_block, buffer), w) = next buffer w
  after_attempt next ((_, buffer), w) = leave none buffer w

  abbrev pub after_wait :
      (Bytes → W → Option (Received W)) → ℕ → Bytes → PollCall × W → Option (Received W)
  after_wait next fd buffer (PollCall.timed_out, w) = leave none buffer w
  after_wait next fd buffer (PollCall.interrupted, w) = next buffer w
  after_wait next fd buffer (PollCall.failed, w) = leave none buffer w
  after_wait next fd buffer (PollCall.ready _, w) = after_attempt next (read_some fd buffer w)

  abbrev pub after_clock :
      (Bytes → W → Option (Received W)) → ℕ → Bytes → ℕ → ℕ × W → Option (Received W)
  after_clock next fd buffer deadline (now, w) =
      if leb deadline now
      then leave none buffer w
      else after_wait next fd buffer
          (os.poll fd pollin (pos (max 1 ((deadline - now) / 1_000_000))) w)

  abbrev pub timed_round :
      (Bytes → W → Option (Received W)) → ℕ → ℕ → W → Option Bytes × Bytes → Option (Received W)
  timed_round next fd deadline w (some m, rest) = leave (some m) rest w
  timed_round next fd deadline w (none, rest) = after_clock next fd rest deadline (os.clock w)

  -- The loop of `read_message_deadline`; the deadline is in nanoseconds.
  unfoldable pub read_until : ℕ → ℕ → ℕ → Bytes → W → Option (Received W)
  read_until zero fd deadline buffer w = none
  read_until (suc fuel) fd deadline buffer w =
      timed_round (read_until fuel fd deadline) fd deadline w (try_extract_message buffer)

  -- `max(0, timeout_ms)`
  unfoldable pub read_message_deadline : ℕ → ℕ → Bytes → ℤ → W → Option (Received W)
  read_message_deadline fuel fd buffer (pos timeout_ms) w =
      let (now, w') = os.clock w in read_until fuel fd (now + timeout_ms * 1_000_000) buffer w'
  read_message_deadline fuel fd buffer (negsuc _) w =
      let (now, w') = os.clock w in read_until fuel fd now buffer w'

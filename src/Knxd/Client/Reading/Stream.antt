-- ===== src/Knxd/Client/Reading/Stream.antt =====
-- `read_message` of src/knxd/knxd_client.cpp ends, and loses no byte of the stream.
use cometvisu_knxd_fcgi.Knxd.Client.Os.{Os, ReadCall}
use cometvisu_knxd_fcgi.Knxd.Client.Reading.{
  Received, make_room, read_result, read_some, read_message, try_extract_message, after_some,
}
use cometvisu_knxd_fcgi.Knxd.Message.Framing.{
  IsFrame, Extracts, message, incomplete, try_extract_message-Extracts,
}
use cometvisu_knxd_fcgi.Prelude.{
  ℕ, suc, ◌+◌, ◌≤◌, ◌<◌, ◌≡◌, refl, sym, ◌∙◌, Option, none, some, [], ◌++◌, arith, Bytes, length,
  length-append, append_assoc, zero, append-nil, subst,
}
use cometvisu_knxd_fcgi.Knxd.Message.{try_extract_message, uint16}

-- What one `read` of up to `n` bytes does to the bytes that were read from a descriptor so far: a
-- call that returns bytes returns at least one.
abbrev pub Reads : ℕ → Bytes → Bytes → ReadCall → Type 0
Reads n before after (ReadCall.got bytes) =
    (0 < length bytes) × (length bytes ≤ n) × (after ≡ before ++ bytes)
Reads n before after _ = after ≡ before

-- The first message of the buffer, or proof that there is none.
pub data Front (buffer : Bytes) : Type 0 where
  frame :
      (m rest : Bytes)
      → try_extract_message buffer ≡ (some m, rest)
      → buffer ≡ m ++ rest
      → IsFrame m
      → Front buffer
  none_yet : try_extract_message buffer ≡ (none, buffer) → length buffer < 65537 → Front buffer

short_buffer :
    (buffer : Bytes) → try_extract_message buffer ≡ (none, buffer) → length buffer < 65537
unfolding try_extract_message uint16
short_buffer buffer h = ground arith

Front-Extracts :
    (buffer : Bytes) (r : Option Bytes × Bytes)
    → try_extract_message buffer ≡ r
    → Extracts buffer r
    → Front buffer
Front-Extracts buffer r e (message m rest whole framed) = frame m rest e whole framed
Front-Extracts buffer r e (incomplete _) = none_yet e (short_buffer buffer e)

pub front : (buffer : Bytes) → Front buffer
front buffer =
    Front-Extracts buffer (try_extract_message buffer) refl (try_extract_message-Extracts buffer)

abbrev pub message_bytes : Option Bytes → Bytes
message_bytes none = []
message_bytes (some m) = m

pub make_room-small :
    (n : ℕ) (buffer : Bytes) → length buffer + n ≤ 1048576 → make_room n buffer ≡ buffer
unfolding make_room
make_room-small n buffer h = ground arith

module _ {W : Type 0} (os : Os W) (received : ℕ → W → Bytes) where
  -- `received fd` grows by what `read` returns.
  pub record ReadLaw : Type 0 where
    pub reads :
        (fd n : ℕ) (w : W)
        → (let (call, w') = os.read fd n w in Reads n (received fd w) (received fd w') call)

  -- The bytes that a call has read are behind those of the buffer, and both make up the message and
  -- the buffer that is left.
  pub record Streams (fd : ℕ) (buffer : Bytes) (w : W) (r : Received W) : Type 0 where
    pub new : Bytes
    pub read : received fd r.world ≡ received fd w ++ new
    pub kept : buffer ++ new ≡ message_bytes r.message ++ r.buffer
    pub framed : (m : Bytes) → r.message ≡ some m → IsFrame m

  pub Ends : ℕ → ℕ → Bytes → W → Type 0
  Ends fuel fd buffer w =
      (r : Received W) × (read_message os fuel fd buffer w ≡ some r) × Streams fd buffer w r

  read_step :
      (fuel fd : ℕ) (buffer : Bytes) (w : W) (call : ReadCall) (w' : W)
      → os.read fd 4096 w ≡ (call, w')
      → try_extract_message buffer ≡ (none, buffer)
      → read_message os (suc fuel) fd buffer w
        ≡ after_some os (read_message os fuel fd) (read_result call buffer, w')
  unfolding read_message read_some
  read_step fuel fd buffer w call w' e x = rw (read_message, x, read_some, e)

  -- A read without bytes ends the loop.
  no_bytes :
      (fuel fd : ℕ) (buffer : Bytes) (w w' : W)
      → read_message os (suc fuel) fd buffer w
        ≡ some (record { message = none; buffer = buffer; world = w' })
      → received fd w' ≡ received fd w
      → Ends (suc fuel) fd buffer w
  unfolding Ends
  no_bytes fuel fd buffer w w' done same = (
    record { message = none; buffer = buffer; world = w' },
    done,
    record {
      new = [];
      read = same ∙ sym (append-nil (received fd w));
      kept = append-nil buffer;
      framed = λ m h. absurd cc;
    },
  )

  after_read :
      (fuel fd : ℕ) (buffer : Bytes) (w : W) (call : ReadCall) (w' : W)
      → os.read fd 4096 w ≡ (call, w')
      → try_extract_message buffer ≡ (none, buffer)
      → length buffer < 65537
      → Reads 4096 (received fd w) (received fd w') call
      → ((more : Bytes) → length buffer < length more → Ends fuel fd more w')
      → Ends (suc fuel) fd buffer w
  unfolding read_result Ends
  after_read fuel fd buffer w (ReadCall.got bytes) w' e x l (some_bytes, few, grown) ih =
      let roomy = make_room-small (length bytes) buffer (omega arith) in
      let longer : length buffer < length (buffer ++ bytes) =
        omega (arith, length-append buffer bytes) in
      let (r, done, s) = ih (buffer ++ bytes) longer in
      (
        r,
        read_step fuel fd buffer w (ReadCall.got bytes) w' e x ∙ rw roomy done,
        record {
          new = bytes ++ s.new;
          read = s.read ∙ rw (grown, append_assoc);
          kept = sym (append_assoc buffer bytes s.new) ∙ s.kept;
          framed = s.framed;
        },
      )
  after_read fuel fd buffer w ReadCall.end_of_file w' e x l same ih =
      no_bytes fuel fd buffer w w' (read_step fuel fd buffer w ReadCall.end_of_file w' e x) same
  after_read fuel fd buffer w ReadCall.not_ready w' e x l same ih =
      no_bytes fuel fd buffer w w' (read_step fuel fd buffer w ReadCall.not_ready w' e x) same
  after_read fuel fd buffer w ReadCall.interrupted w' e x l same ih =
      no_bytes fuel fd buffer w w' (read_step fuel fd buffer w ReadCall.interrupted w' e x) same
  after_read fuel fd buffer w ReadCall.failed w' e x l same ih =
      no_bytes fuel fd buffer w w' (read_step fuel fd buffer w ReadCall.failed w' e x) same

  first_message :
      (fuel fd : ℕ) (buffer m rest : Bytes) (w : W)
      → try_extract_message buffer ≡ (some m, rest)
      → read_message os (suc fuel) fd buffer w
        ≡ some (record { message = some m; buffer = rest; world = w })
  unfolding read_message
  first_message fuel fd buffer m rest w e = rw (read_message, e)

  -- When `read` returns what is received, with a fuel that makes more than 65537 with the length of the
  -- buffer, `read_message` ends. The buffer and the bytes it read are then the message, if there is one,
  -- and the new buffer, in order; and the message is one whole frame.
  pub read_message-Ends :
      (fuel fd : ℕ) (buffer : Bytes) (w : W)
      → ReadLaw
      → 65537 < fuel + length buffer
      → 0 < fuel
      → Ends fuel fd buffer w
  unfolding Ends
  read_message-Ends zero fd buffer w law enough p = absurd (omega arith)
  read_message-Ends (suc fuel) fd buffer w law enough p = elim (front buffer) [
    | frame m rest e whole framed ↦ (
      record { message = some m; buffer = rest; world = w },
      first_message fuel fd buffer m rest w e,
      record {
        new = [];
        read = sym (append-nil (received fd w));
        kept = append-nil buffer ∙ whole;
        framed = λ n h. let same : m ≡ n = cc in subst IsFrame same framed;
      },
    )
    | none_yet x l ↦
        let (call, w') = os.read fd 4096 w in
        after_read fuel fd buffer w call w' refl x l (law.reads fd 4096 w)
          (λ more longer. read_message-Ends fuel fd more w' law (omega arith) (omega arith))
  ]

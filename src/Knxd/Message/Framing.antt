-- ===== src/Knxd/Message/Framing.antt =====
-- Messages are taken out of the read buffer as they were built.
use cometvisu_knxd_fcgi.Prelude.{
  ℕ, ◌+◌, ◌*◌, ◌/◌, ◌%◌, ◌^◌, ◌≤◌, ◌<◌, ◌≡◌, ◌≢◌, refl, Option, none, some, [], ◌∷◌, ◌++◌, arith,
  Bytes, ltb, length, get_or, take, drop, length-append, false, take-append, drop-append, take_all,
  suc, Bool-cases, take-append-drop, inl, length-take, inr,
}
use cometvisu_knxd_fcgi.Prelude.Bits.{bit_and-0xff, or_shl_8}
use cometvisu_knxd_fcgi.Knxd.Message.{
  high_byte, low_byte, uint16, build_eibd_message, undefined_behaviour, parsed, parse_eibd_message,
  try_extract_message,
}

pub uint16_bytes : (n : ℕ) → n < 2 ^ 16 → uint16 (high_byte n) (low_byte n) ≡ n
uint16_bytes n h =
    let e : n / 256 % 256 * 256 + n % 256 ≡ n = omega arith in
    rw (bit_and-0xff (n / 256), bit_and-0xff n, or_shl_8 (n / 256 % 256) (n % 256) (omega arith), e)
      (omega arith)

pub length-build_eibd_message :
    (type : ℕ) (data_ : Bytes) → length (build_eibd_message type data_) ≡ 4 + length data_
unfolding build_eibd_message
length-build_eibd_message type data_ = omega arith

-- A byte sequence whose first two bytes give the length of the rest.
pub record IsFrame (m : Bytes) : Type 0 where
  pub headed : 2 ≤ length m
  pub whole : length m ≡ 2 + uint16 (get_or m 0 0) (get_or m 1 0)

pub build-IsFrame :
    (type : ℕ) (data_ : Bytes) → 2 + length data_ < 2 ^ 16 → IsFrame (build_eibd_message type data_)
unfolding build_eibd_message
build-IsFrame type data_ q = record {
  headed = omega arith;
  whole = rw (uint16_bytes (2 + length data_) q) (omega arith);
}

extract_total :
    (a b : ℕ) (m rest : Bytes)
    → length (a ∷ b ∷ m) ≡ 2 + uint16 a b
    → try_extract_message (a ∷ b ∷ m ++ rest) ≡ (some (a ∷ b ∷ m), rest)
unfolding try_extract_message
extract_total a b m rest e =
    let fits : ltb (length (a ∷ b ∷ (m ++ rest))) (2 + uint16 a b) ≡ false =
      ground (arith, length-append m rest) in
    let long : ltb (length (a ∷ b ∷ (m ++ rest))) 2 ≡ false = ground arith in
    rw (long, fits, ← e, take-append (a ∷ b ∷ m) rest, drop-append (a ∷ b ∷ m) rest)

pub try_extract_message-append :
    (m rest : Bytes) → IsFrame m → try_extract_message (m ++ rest) ≡ (some m, rest)
try_extract_message-append [] rest f = absurd (omega (arith, f.headed))
try_extract_message-append (a ∷ []) rest f = absurd (omega (arith, f.headed))
try_extract_message-append (a ∷ b ∷ m) rest f = extract_total a b m rest f.whole

take_whole :
    (type : ℕ) (data_ : Bytes)
    → take (2 + (2 + length data_)) (build_eibd_message type data_) ≡ build_eibd_message type data_
take_whole type data_ =
    let e : 2 + (2 + length data_) ≡ length (build_eibd_message type data_) =
      omega (arith, length-build_eibd_message type data_) in
    rw e (take_all (build_eibd_message type data_))

parse-build_eibd_message :
    (type : ℕ) (data_ : Bytes)
    → type < 2 ^ 16
    → 2 + length data_ < 2 ^ 16
    → parse_eibd_message (build_eibd_message type data_) ≡ parsed type data_
unfolding parse_eibd_message build_eibd_message
parse-build_eibd_message type data_ p q =
    let whole = take_whole type data_ in
    rw (uint16_bytes (2 + length data_) q, uint16_bytes type p) (ground (arith, whole))

-- A message that was built, whatever follows it in the buffer, is taken out whole and the rest is
-- left; and it is parsed to the type and the data that it was built from. The type must fit in 16
-- bits, and the data with the type in 65535 bytes.
pub receive-build_eibd_message :
    (type : ℕ) (data_ rest : Bytes)
    → type < 2 ^ 16
    → 2 + length data_ < 2 ^ 16
    → (try_extract_message (build_eibd_message type data_ ++ rest)
        ≡ (some (build_eibd_message type data_), rest))
      × (parse_eibd_message (build_eibd_message type data_) ≡ parsed type data_)
receive-build_eibd_message type data_ rest p q = (
  try_extract_message-append _ rest (build-IsFrame type data_ q),
  parse-build_eibd_message type data_ p q,
)

-- What one call of `try_extract_message` does with the buffer.
pub data Extracts (buffer : Bytes) : Option Bytes × Bytes → Type 0 where
  message : (m rest : Bytes) → buffer ≡ m ++ rest → IsFrame m → Extracts buffer (some m, rest)
  incomplete : ((m rest : Bytes) → IsFrame m → buffer ≢ m ++ rest) → Extracts buffer (none, buffer)

Extracts-none :
    (buffer : Bytes)
    → try_extract_message buffer ≡ (none, buffer)
    → Extracts buffer (try_extract_message buffer)
Extracts-none buffer e = rw e (
    incomplete λ m rest f g.
      let taken : try_extract_message buffer ≡ (some m, rest) =
        rw g (try_extract_message-append m rest f) in
      cc)

Extracts-some :
    (a b : ℕ) (s : Bytes)
    → uint16 a b ≤ length s
    → Extracts
        (a ∷ b ∷ s)
        (some (take (2 + uint16 a b) (a ∷ b ∷ s)), drop (2 + uint16 a b) (a ∷ b ∷ s))
Extracts-some a b s h =
    let u = uint16 a b in
    let e : 2 + u ≡ suc (suc u) = omega arith in
    rw e (
      message (a ∷ b ∷ take u s) (drop u s) (rw (take-append-drop u s))
        (record { headed = omega arith; whole = omega (arith, length-take {0} u s) }))

-- A call takes out the message at the front of the buffer and loses no byte of what follows it. It
-- finds none, and leaves the buffer as it is, only if no complete message stands at the front.
pub try_extract_message-Extracts : (buffer : Bytes) → Extracts buffer (try_extract_message buffer)
try_extract_message-Extracts [] = Extracts-none [] (unfold try_extract_message in refl)
try_extract_message-Extracts (a ∷ []) = Extracts-none (a ∷ []) (unfold try_extract_message in refl)
try_extract_message-Extracts (a ∷ b ∷ s) =
    elim (Bool-cases (ltb (length (a ∷ b ∷ s)) (2 + uint16 a b))) [
      | inl short ↦ Extracts-none (a ∷ b ∷ s) (unfold try_extract_message in ground arith)
      | inr long ↦
          let h : uint16 a b ≤ length s = ground arith in
          let e : try_extract_message (a ∷ b ∷ s)
              ≡ (some (take (2 + uint16 a b) (a ∷ b ∷ s)), drop (2 + uint16 a b) (a ∷ b ∷ s)) =
            unfold try_extract_message in ground arith in
          rw e (Extracts-some a b s h)
    ]

-- A message that was taken out of the buffer is parsed without undefined behaviour.
pub parse-ne-undefined : (m : Bytes) → IsFrame m → parse_eibd_message m ≢ undefined_behaviour
unfolding parse_eibd_message
parse-ne-undefined m f = ground arith

-- ===== src/Knxd/Message.antt =====
-- The eibd messages of src/knxd/knxd_protocol.cpp. The numbers of <eibtypes.h> are parameters.
pub mod Framing
use Prim.Native.Nat.{bit_and, bit_or}
use cometvisu_knxd_fcgi.Prelude.{
  ℕ, ◌+◌, ◌*◌, ◌/◌, ◌%◌, ◌^◌, Bool, Option, none, some, [], ◌∷◌, ◌++◌, Bytes, ltb, if◌then◌else◌,
  length, get_or, take, drop,
}

-- `static_cast<uint8_t>((n >> 8) & 0xFF)` and `static_cast<uint8_t>(n & 0xFF)`
abbrev pub high_byte : ℕ → ℕ
high_byte n = bit_and (n / 2 ^ 8) 0xff

abbrev pub low_byte : ℕ → ℕ
low_byte n = bit_and n 0xff

-- `static_cast<uint16_t>((hi << 8) | lo)`
abbrev pub uint16 : ℕ → ℕ → ℕ
uint16 hi lo = bit_or (hi * 2 ^ 8) lo % 2 ^ 16

unfoldable pub build_eibd_message : ℕ → Bytes → Bytes
build_eibd_message type data_ =
    let payload_size = 2 + length data_ in
    high_byte payload_size ∷ low_byte payload_size ∷ high_byte type ∷ low_byte type ∷ data_

-- `undefined_behaviour`: `assign` is given a range that ends before it begins.
pub data ParseResult : Type 0 where
  rejected : ParseResult
  undefined_behaviour : ParseResult
  parsed : ℕ → Bytes → ParseResult

unfoldable pub parse_eibd_message : Bytes → ParseResult
parse_eibd_message raw =
    let payload_len = uint16 (get_or raw 0 0) (get_or raw 1 0) in
    if ltb (length raw) 4
    then rejected
    else if ltb (length raw) (payload_len + 2)
    then rejected
    else if ltb (2 + payload_len) 4
    then undefined_behaviour
    else parsed (uint16 (get_or raw 2 0) (get_or raw 3 0)) (drop 4 (take (2 + payload_len) raw))

-- The message, if one is complete, and the buffer that is left.
unfoldable pub try_extract_message : Bytes → Option Bytes × Bytes
try_extract_message buffer =
    let total_needed = 2 + uint16 (get_or buffer 0 0) (get_or buffer 1 0) in
    if ltb (length buffer) 2
    then (none, buffer)
    else if ltb (length buffer) total_needed
    then (none, buffer)
    else (some (take total_needed buffer), drop total_needed buffer)

-- The message types, from knxd's <eibtypes.h>.
pub record EibTypes : Type 0 where
  pub open_groupcon : ℕ
  pub group_packet : ℕ
  pub apdu_packet : ℕ

unfoldable pub build_open_groupcon : EibTypes → Bool → Bytes
build_open_groupcon eib write_only =
    let wo_byte : ℕ = if write_only then 0x01 else 0x00 in
    build_eibd_message eib.open_groupcon (0x00 ∷ 0x00 ∷ wo_byte ∷ [])

unfoldable pub build_group_packet : EibTypes → ℕ → Bytes → Bytes
build_group_packet eib group_addr apdu =
    build_eibd_message eib.group_packet (high_byte group_addr ∷ low_byte group_addr ∷ apdu)

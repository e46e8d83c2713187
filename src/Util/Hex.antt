-- ===== src/Util/Hex.antt =====
-- src/util/hex.cpp: bytes as lowercase hexadecimal text and back.
pub mod RoundTrip
use Prim.Native.Nat.{bit_and, bit_or}
use cometvisu_knxd_fcgi.Prelude.{
  ℕ, ◌+◌, ◌-◌, ◌*◌, ◌/◌, ◌%◌, ◌^◌, Bool, ◌&&◌, ◌||◌, not, [], ◌∷◌, ◌++◌, Bytes, codes, leb, ◌==◌,
  if◌then◌else◌, length, get_or,
}

-- `std::isxdigit` in the C locale.
unfoldable pub is_xdigit : ℕ → Bool
is_xdigit c = (leb b'0' c && leb c b'9') || (leb b'a' c && leb c b'f') || (leb b'A' c && leb c b'F')

-- The lambda `nibble`.
unfoldable pub nibble : ℕ → ℕ
nibble c =
    if leb b'0' c && leb c b'9'
    then c - b'0'
    else if leb b'a' c && leb c b'f'
    then c - b'a' + 10
    else if leb b'A' c && leb c b'F'
    then c - b'A' + 10
    else 0

-- The loop; `result` holds the bytes so far. The caller has checked that the size is even.
unfoldable pub decode_pairs : Bytes → Bytes → Bytes
decode_pairs [] result = result
decode_pairs (_ ∷ []) result = result
decode_pairs (hi ∷ lo ∷ rest) result =
    let byte = bit_or (nibble hi * 2 ^ 4) (nibble lo) % 256 in
    let next = decode_pairs rest (result ++ byte ∷ []) in
    if not (is_xdigit hi) || not (is_xdigit lo) then [] else next

unfoldable pub hex_decode : Bytes → Bytes
unfolding decode_pairs
hex_decode hex = if not (length hex % 2 == 0) then [] else decode_pairs hex []

-- `kHexChars[n]`
unfoldable pub hex_char : ℕ → ℕ
hex_char n = get_or (codes "0123456789abcdef") n 0

unfoldable pub hex_encode : Bytes → Bytes
hex_encode [] = []
hex_encode (b ∷ data_) =
    hex_char (bit_and (b / 2 ^ 4) 0x0f) ∷ hex_char (bit_and b 0x0f) ∷ hex_encode data_

unfoldable pub hex_byte : ℕ → Bytes
unfolding hex_encode
hex_byte byte = hex_encode (byte ∷ [])

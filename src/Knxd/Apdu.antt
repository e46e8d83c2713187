-- ===== src/Knxd/Apdu.antt =====
-- `ApduType` and `parse_apdu` of src/knxd/knxd_protocol.{h,cpp}.
use Prim.Native.Nat.{bit_and}
use cometvisu_knxd_fcgi.Prelude.Bits.{bit_and-0xc0, bit_and-0x3f}
use cometvisu_knxd_fcgi.Prelude.{
  ℕ, ◌+◌, ◌<◌, ◌≡◌, Option, none, some, [], ◌∷◌, arith, Bytes, ltb, ◌==◌, if◌then◌else◌, length,
  drop, get_or, ◌*◌, ◌/◌, refl,
}

-- `unnamed` is the value 0xC0, which the enumeration can hold and has no name for.
pub data ApduType : Type 0 where
  read response write unnamed : ApduType

-- `static_cast<ApduType>(byte & 0xC0)`
unfoldable pub apdu_type : ℕ → ApduType
apdu_type byte =
    if bit_and byte 0xc0 == 0x00
    then read
    else if bit_and byte 0xc0 == 0x40
    then response
    else if bit_and byte 0xc0 == 0x80
    then write
    else unnamed

-- The cases `Response` and `Write`.
unfoldable pub apdu_value : Bytes → Bytes
apdu_value apdu = if length apdu == 2 then bit_and (get_or apdu 1 0) 0x3f ∷ [] else drop 2 apdu

unfoldable pub apdu_data : ApduType → Bytes → Bytes
unfolding apdu_value
apdu_data read apdu = []
apdu_data response apdu = apdu_value apdu
apdu_data write apdu = apdu_value apdu
apdu_data unnamed apdu = []

-- `none` if it returns false, else what it leaves in `out_type` and `out_data`.
unfoldable pub parse_apdu : Bytes → Option (ApduType × Bytes)
parse_apdu apdu =
    if ltb (length apdu) 2
    then none
    else let type = apdu_type (get_or apdu 1 0) in some (type, apdu_data type apdu)

-- The second byte of an APDU with the upper bits of a type.
abbrev pub apci : ApduType → ℕ
apci read = 0x00
apci response = 0x40
apci write = 0x80
apci unnamed = 0xc0

apci_multiple : (type : ApduType) → apci type ≡ apci type / 64 * 64
apci_multiple read = refl
apci_multiple response = refl
apci_multiple write = refl
apci_multiple unnamed = refl

apdu_type-apci : (type : ApduType) (v : ℕ) → v < 64 → apdu_type (apci type + v) ≡ type
unfolding apdu_type
apdu_type-apci read v h = ground (arith, bit_and-0xc0 v)
apdu_type-apci response v h = ground (arith, bit_and-0xc0 (0x40 + v))
apdu_type-apci write v h = ground (arith, bit_and-0xc0 (0x80 + v))
apdu_type-apci unnamed v h = ground (arith, bit_and-0xc0 (0xc0 + v))

-- What telegrams of a type carry: a response and a write carry the value.
abbrev pub carried : ApduType → Bytes → Bytes
carried read value = []
carried response value = value
carried write value = value
carried unnamed value = []

apdu_data-carried :
    (type : ApduType) (apdu value : Bytes)
    → apdu_value apdu ≡ value
    → apdu_data type apdu ≡ carried type value
unfolding apdu_data
apdu_data-carried read apdu value h = refl
apdu_data-carried response apdu value h = h
apdu_data-carried write apdu value h = h
apdu_data-carried unnamed apdu value h = refl

-- An APDU of two bytes is read as its type and, for a response or a write, the value of six bits in its
-- second byte.
pub parse_apdu-short :
    (head v : ℕ) (type : ApduType)
    → v < 64
    → parse_apdu (head ∷ (apci type + v) ∷ []) ≡ some (type, carried type (v ∷ []))
unfolding parse_apdu
parse_apdu-short head v type h =
    let low : bit_and (apci type + v) 0x3f ≡ v =
      omega (arith, bit_and-0x3f (apci type + v), apci_multiple type) in
    let value : apdu_value (head ∷ (apci type + v) ∷ []) ≡ v ∷ [] = unfold apdu_value in rw low in
    rw
      (apdu_type-apci type v h, apdu_data-carried type (head ∷ (apci type + v) ∷ []) (v ∷ []) value)

-- A longer APDU is read as its type and, for a response or a write, the bytes after the second, whatever the
-- lower bits of the second are.
pub parse_apdu-long :
    (head v : ℕ) (type : ApduType) (b : ℕ) (value : Bytes)
    → v < 64
    → parse_apdu (head ∷ (apci type + v) ∷ b ∷ value) ≡ some (type, carried type (b ∷ value))
unfolding parse_apdu
parse_apdu-long head v type b value h =
    let apdu : Bytes = head ∷ (apci type + v) ∷ b ∷ value in
    let behind : apdu_value apdu ≡ b ∷ value = unfold apdu_value in ground arith in
    rw (apdu_type-apci type v h, apdu_data-carried type apdu (b ∷ value) behind) (ground arith)

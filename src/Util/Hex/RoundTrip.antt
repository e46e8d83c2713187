-- ===== src/Util/Hex/RoundTrip.antt =====
-- Encoding and decoding of src/util/hex.cpp undo one another.
use Prim.Native.Nat.{bit_or}
use cometvisu_knxd_fcgi.Prelude.{
  ℕ, ◌+◌, ◌*◌, ◌/◌, ◌%◌, ◌<◌, ◌≡◌, refl, sym, Bool, true, false, ◌&&◌, ◌||◌, not, [], ◌∷◌, ◌++◌,
  map, append_assoc, append-nil, arith, Bytes, IsByte, leb, ◌==◌, ==_iff, if◌then◌else◌, Bool-cases,
  length, All, ◌⊎◌, inl, inr,
}
use cometvisu_knxd_fcgi.Prelude.Bits.{passes, passes_at, bit_and-0x0f, or_shl_4}
use cometvisu_knxd_fcgi.Util.Hex.{is_xdigit, nibble, decode_pairs, hex_decode, hex_char, hex_encode}

-- `tolower` on hexadecimal digits.
unfoldable pub to_lower : ℕ → ℕ
to_lower c = if leb b'A' c && leb c b'F' then c + 32 else c

abbrev pub AllHex : Bytes → Type 0
AllHex = All λ c. is_xdigit c ≡ true

char_ok : ℕ → Bool
char_ok n = is_xdigit (hex_char n) && nibble (hex_char n) == n

char_table : passes char_ok 16 ≡ true
unfolding passes char_ok is_xdigit hex_char nibble
char_table = refl

hex_char_digit : (n : ℕ) → n < 16 → (is_xdigit (hex_char n) ≡ true) × (nibble (hex_char n) ≡ n)
unfolding char_ok
hex_char_digit n h = ground (arith, passes_at char_ok 16 char_table n h)

nibble-lt : (c : ℕ) → nibble c < 16
unfolding nibble
nibble-lt c = ground arith

digit_ok : ℕ → Bool
digit_ok c = not (is_xdigit c) || hex_char (nibble c) == to_lower c

digit_table : passes digit_ok 103 ≡ true
unfolding passes digit_ok is_xdigit hex_char nibble to_lower
digit_table = refl

is_xdigit-lt : (c : ℕ) → is_xdigit c ≡ true → c < 103
unfolding is_xdigit
is_xdigit-lt c h = ground arith

hex_char-nibble : (c : ℕ) → is_xdigit c ≡ true → hex_char (nibble c) ≡ to_lower c
unfolding digit_ok
hex_char-nibble c h = ground (arith, passes_at digit_ok 103 digit_table c (is_xdigit-lt c h))

joined : (a b : ℕ) → a < 16 → b < 16 → bit_or (a * 16) b % 256 ≡ a * 16 + b
joined a b p q = omega (arith, or_shl_4 a b q)

length-hex_encode : (bs : Bytes) → length (hex_encode bs) ≡ 2 * length bs
unfolding hex_encode
length-hex_encode [] = refl
length-hex_encode (b ∷ bs) = omega (arith, length-hex_encode bs)

decode_pairs-step :
    (hi lo : ℕ) (rest out : Bytes)
    → is_xdigit hi ≡ true
    → is_xdigit lo ≡ true
    → decode_pairs (hi ∷ lo ∷ rest) out
      ≡ decode_pairs rest (out ++ (nibble hi * 16 + nibble lo) ∷ [])
unfolding decode_pairs
decode_pairs-step hi lo rest out p q =
    rw (p, q, joined (nibble hi) (nibble lo) (nibble-lt hi) (nibble-lt lo))

decode_pairs-hex_encode :
    (bs out : Bytes) → All IsByte bs → decode_pairs (hex_encode bs) out ≡ out ++ bs
unfolding hex_encode
decode_pairs-hex_encode [] out h = unfold decode_pairs in sym (append-nil out)
decode_pairs-hex_encode (b ∷ bs) out (p, h) =
    let e₁ = bit_and-0x0f (b / 16) in
    let e₂ = bit_and-0x0f b in
    let (d₁, n₁) = hex_char_digit (b / 16 % 16) (omega arith) in
    let (d₂, n₂) = hex_char_digit (b % 16) (omega arith) in
    let e : b / 16 % 16 * 16 + b % 16 ≡ b = omega arith in
    rw (e₁, e₂, decode_pairs-step _ _ (hex_encode bs) out d₁ d₂, n₁, n₂, e)
      (rw (decode_pairs-hex_encode bs (out ++ b ∷ []) h) (append_assoc out (b ∷ []) bs))

-- Decoding the hexadecimal text of any bytes gives the bytes back.
pub hex_decode-hex_encode : (bs : Bytes) → All IsByte bs → hex_decode (hex_encode bs) ≡ bs
unfolding hex_decode
hex_decode-hex_encode bs h =
    let even : length (hex_encode bs) % 2 ≡ 0 = omega (arith, length-hex_encode bs) in
    rw even (decode_pairs-hex_encode bs [] h)

hex_encode-append : (a b : Bytes) → hex_encode (a ++ b) ≡ hex_encode a ++ hex_encode b
unfolding hex_encode
hex_encode-append [] b = refl
hex_encode-append (x ∷ a) b = rw (hex_encode-append a b)

hex_encode-joined :
    (hi lo : ℕ)
    → is_xdigit hi ≡ true
    → is_xdigit lo ≡ true
    → hex_encode ((nibble hi * 16 + nibble lo) ∷ []) ≡ to_lower hi ∷ to_lower lo ∷ []
unfolding hex_encode
hex_encode-joined hi lo p q =
    let a = nibble hi in
    let b = nibble lo in
    let n = a * 16 + b in
    let e₁ : n / 16 % 16 ≡ a = omega (arith, nibble-lt hi, nibble-lt lo) in
    let e₂ : n % 16 ≡ b = omega (arith, nibble-lt hi, nibble-lt lo) in
    rw (bit_and-0x0f (n / 16), bit_and-0x0f n, e₁, e₂, hex_char-nibble hi p, hex_char-nibble lo q)

decode_pairs-bad :
    (hi lo : ℕ) (rest out : Bytes)
    → is_xdigit hi && is_xdigit lo ≡ false
    → decode_pairs (hi ∷ lo ∷ rest) out ≡ []
unfolding decode_pairs
decode_pairs-bad hi lo rest out p = ground arith

-- A text of even length is decoded digit by digit, or some byte of it is no digit.
decode_pairs_cases :
    (s out : Bytes)
    → length s % 2 ≡ 0
    → (AllHex s × (hex_encode (decode_pairs s out) ≡ hex_encode out ++ map to_lower s))
      ⊎ ((¬ AllHex s) × (decode_pairs s out ≡ []))
decode_pairs_cases [] out h = inl (tt, unfold decode_pairs in sym (append-nil (hex_encode out)))
decode_pairs_cases (_ ∷ []) out h = absurd (omega arith)
decode_pairs_cases (hi ∷ lo ∷ rest) out h = elim (Bool-cases (is_xdigit hi && is_xdigit lo)) [
  | inr bad ↦ inr (ground arith, decode_pairs-bad hi lo rest out bad)
  | inl good ↦
      let p : is_xdigit hi ≡ true = ground arith in
      let q : is_xdigit lo ≡ true = ground arith in
      let byte = nibble hi * 16 + nibble lo in
      let e = decode_pairs-step hi lo rest out p q in
      elim (decode_pairs_cases rest (out ++ byte ∷ []) (omega arith)) [
        | inl (a, r) ↦
            inl
              ((p, (q, a)), rw (e, r, hex_encode-append, hex_encode-joined hi lo p q, append_assoc))
        | inr (n, r) ↦ inr (λ a. n a.1.1, rw (e, r))
      ]
]

-- `hex_decode` reads exactly the texts of even length whose bytes are all hexadecimal digits, of
-- either case: encoding its result gives the text in lower case. It returns no bytes for any other.
pub hex_decode_cases :
    (s : Bytes)
    → ((length s % 2 ≡ 0) × AllHex s × (hex_encode (hex_decode s) ≡ map to_lower s))
      ⊎ ((¬ ((length s % 2 ≡ 0) × AllHex s)) × (hex_decode s ≡ []))
unfolding hex_decode hex_encode
hex_decode_cases s = elim (Bool-cases (length s % 2 == 0)) [
  | inr odd ↦ inr (ground arith, rw odd)
  | inl even ↦ elim (decode_pairs_cases s [] ((==_iff _ 0).0 even)) [
    | inl (a, r) ↦ inl ((==_iff _ 0).0 even, a, rw even r)
    | inr (n, r) ↦ inr (λ h. n h.1, rw even r)
  ]
]

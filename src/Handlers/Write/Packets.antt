-- ===== src/Handlers/Write/Packets.antt =====
-- Whatever the request, the packets of src/handlers/write_handler.cpp are well-formed.
use Prim.Native.Nat.{bit_and}
use cometvisu_knxd_fcgi.Prelude.Bits.{bit_and-0x80}
use cometvisu_knxd_fcgi.Util.Hex.{hex_decode, decode_pairs}
use cometvisu_knxd_fcgi.Util.QueryString
use cometvisu_knxd_fcgi.Util.QueryString.{query_string, get_all}
use cometvisu_knxd_fcgi.Knxd.Address.{KnxAddress, from_cometvisu, to_eibaddr}
use cometvisu_knxd_fcgi.State.SessionStore.{SessionStore}
use cometvisu_knxd_fcgi.Handlers.Write.{
  Writes, WriteResult, write_ok, no_writes, write_packet, write_all, write_value, session_valid,
  write_checked, handle_write, is_empty,
}
use cometvisu_knxd_fcgi.Prelude.{
  ℕ, ◌^◌, ◌≤◌, ◌<◌, ◌≡◌, refl, inl, inr, Bool, true, false, ◌||◌, not, List, [], ◌∷◌, arith, Bytes,
  ◌==◌, if◌then◌else◌, All, Option-cases, get_or, IsByte, All-append, is_empty, ==_iff, Option,
  none, some, Bool-cases, codes,
}

either-All :
    (test : Bool) (x y : Bytes) → All IsByte x → All IsByte y → All IsByte (if test then x else y)
either-All true x y h k = h
either-All false x y h k = k

decode_pairs-All : (hex result : Bytes) → All IsByte result → All IsByte (decode_pairs hex result)
unfolding decode_pairs
decode_pairs-All [] result h = h
decode_pairs-All (x ∷ []) result h = h
decode_pairs-All (hi ∷ lo ∷ rest) result h =
    either-All _ [] _ tt (decode_pairs-All rest _ (All-append IsByte result _ h (omega arith, tt)))

-- Whatever the text, bytes come out.
pub hex_decode-All : (hex : Bytes) → All IsByte (hex_decode hex)
unfolding hex_decode
hex_decode-All hex = either-All _ [] _ tt (decode_pairs-All hex [] tt)

-- A group write: a zero, a byte with the bit 0x80, and more bytes.
pub record IsGroupWrite (apdu : Bytes) : Type 0 where
  pub first : ℕ
  pub rest : Bytes
  pub layout : apdu ≡ 0 ∷ first ∷ rest
  pub write_bit : 128 ≤ first
  pub in_byte : first ≤ 255
  pub in_bytes : All IsByte rest

-- With a group address of 16 bits.
abbrev pub IsPacket : ℕ × Bytes → Type 0
IsPacket (eibaddr, apdu) = (eibaddr < 2 ^ 16) × IsGroupWrite apdu

write_packet-All :
    (accepted : ℕ → Bool) (apdu : Bytes) (eibaddr : ℕ) (w : Writes)
    → eibaddr < 2 ^ 16
    → IsGroupWrite apdu
    → All IsPacket w.sent
    → All IsPacket (write_packet accepted apdu eibaddr w).sent
unfolding write_packet
write_packet-All accepted apdu eibaddr w small good h =
    All-append IsPacket w.sent _ h ((small, good), tt)

next-All :
    (accepted : ℕ → Bool) (apdu : Bytes) (w : Writes) (parsed : Option KnxAddress)
    → IsGroupWrite apdu
    → All IsPacket w.sent
    → All IsPacket
        (let done : Writes = elim parsed [
          | none ↦ w
          | some a ↦ write_packet accepted apdu (to_eibaddr a.group) w
        ] in
          done).sent
unfolding to_eibaddr
next-All accepted apdu w none good h = h
next-All accepted apdu w (some a) good h = write_packet-All accepted apdu _ w (omega arith) good h

write_all-All :
    (accepted : ℕ → Bool) (default apdu : Bytes) (addresses : List Bytes) (w : Writes)
    → IsGroupWrite apdu
    → All IsPacket w.sent
    → All IsPacket (write_all accepted default apdu addresses w).sent
unfolding write_all
write_all-All accepted default apdu [] w good h = h
write_all-All accepted default apdu (s ∷ addresses) w good h =
    write_all-All accepted default apdu addresses _ good
      (next-All accepted apdu w (from_cometvisu default s) good h)

write_bit-ge : (b : ℕ) → b < 256 → not (bit_and b 0x80 == 0x80) ≡ false → 128 ≤ b
write_bit-ge b h e =
    let bit = bit_and-0x80 b in
    let set : (bit_and b 0x80 == 0x80) ≡ true = elim (Bool-cases (bit_and b 0x80 == 0x80)) [
      | inl is_set ↦ is_set
      | inr is_clear ↦ absurd_false (rw is_clear at e)
    ] in
    let equal = (==_iff (bit_and b 0x80) 0x80).0 set in omega arith
  where
    absurd_false : {P : Type 0} → true ≡ false → P
    absurd_false h = absurd cc

group_write :
    (hex_data : Bytes)
    → All IsByte hex_data
    → is_empty hex_data || not (bit_and (get_or hex_data 0 0) 0x80 == 0x80) ≡ false
    → IsGroupWrite (0x00 ∷ hex_data)
group_write [] h e = absurd cc
group_write (b ∷ rest) h e =
    let small = h.0 in
    record {
      first = b;
      rest = rest;
      layout = refl;
      write_bit = write_bit-ge b h.0 e;
      in_byte = omega arith;
      in_bytes = h.1;
    }

checked_value-All :
    (skip quiet : Bool) (result : WriteResult) (packets : List (ℕ × Bytes))
    → (quiet ≡ false → All IsPacket packets)
    → All IsPacket
        (let nothing : WriteResult × List (ℕ × Bytes) = (write_ok, []) in
          let outcome : WriteResult × List (ℕ × Bytes) =
            if skip then nothing else if quiet then nothing else (result, packets) in
          outcome).1
checked_value-All true quiet result packets h = tt
checked_value-All false true result packets h = tt
checked_value-All false false result packets h = h refl

write_value-All :
    (accepted : ℕ → Bool) (default : Bytes) (addresses : List Bytes) (value : Bytes)
    → All IsPacket (write_value accepted default addresses value).1
unfolding write_value
write_value-All accepted default addresses value = checked_value-All _ _ _ _ (λ e.
    write_all-All accepted default (0x00 ∷ hex_decode value) addresses no_writes
      (group_write (hex_decode value) (hex_decode-All value) e) tt)

write_checked-All :
    (accepted : ℕ → Bool) (default : Bytes) (addresses : List Bytes) (value : Bytes)
    (session : Bool × SessionStore)
    → All IsPacket (write_checked accepted default addresses value session).sent
unfolding write_checked
write_checked-All accepted default addresses value (false, sessions) = tt
write_checked-All accepted default addresses value (true, sessions) =
    write_value-All accepted default addresses value

-- Whatever the request says, each packet that the endpoint /w sends has an address of 16 bits and is a group write: a zero, a byte with the bit 0x80, and nothing but bytes.
pub handle_write-IsPacket :
    (accepted : ℕ → Bool) (default : Bytes) (now : ℕ) (raw : Bytes) (sessions : SessionStore)
    → All IsPacket (handle_write accepted default now raw sessions).sent
unfolding handle_write
handle_write-IsPacket accepted default now raw sessions =
    elim (Bool-cases (is_empty (get_all (codes "a") (query_string raw)))) [
      | inl e ↦ rw e tt
      | inr e ↦ elim (Option-cases (QueryString.get (codes "v") (query_string raw))) [
        | inl f ↦ rw (e, f) tt
        | inr (value, f) ↦
            rw (e, f)
              (write_checked-All accepted default (get_all (codes "a") (query_string raw)) value
                (session_valid (query_string raw) now sessions))
      ]
    ]

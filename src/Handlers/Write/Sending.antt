-- ===== src/Handlers/Write/Sending.antt =====
-- What src/handlers/write_handler.cpp sends and answers.
use Prim.Native.Nat.{bit_and}
use cometvisu_knxd_fcgi.Handlers.Write.{
  Writes, WriteResult, from_cometvisu, is_empty, write_packet, write_all, to_eibaddr, write_ok,
  write_status, write_value, hex_decode, no_writes, write_checked, handle_write, session_valid,
}
use cometvisu_knxd_fcgi.Util.QueryString
use cometvisu_knxd_fcgi.Util.QueryString.{Params, query_string, get_all}
use cometvisu_knxd_fcgi.State.SessionStore.{SessionStore}
use cometvisu_knxd_fcgi.Prelude.{
  ℕ, zero, suc, ◌≡◌, refl, sym, ◌∙◌, inl, inr, Bool, true, false, ◌||◌, not, none, some, List, [],
  ◌∷◌, ◌++◌, arith, Bytes, if◌then◌else◌, length, Option-cases, is_empty, length-append, append-nil,
  append_assoc, ◌/◌, ◌%◌, Bool-cases, codes,
}
use cometvisu_knxd_fcgi.Knxd.Address.{from_cometvisu, to_eibaddr}
use cometvisu_knxd_fcgi.Util.Hex.{hex_decode}
use cometvisu_knxd_fcgi.Prelude.Bits.{bit_and-0x80}

-- One packet for each valid address, in order.
abbrev pub packets : Bytes → Bytes → List Bytes → List (ℕ × Bytes)
packets default apdu [] = []
packets default apdu (addr_str ∷ addresses) = elim (from_cometvisu default addr_str) [
  | none ↦ packets default apdu addresses
  | some parsed ↦ (to_eibaddr parsed.group, apdu) ∷ packets default apdu addresses
]

-- Whether one of `count` calls from number `n` on fails.
abbrev pub fails : (ℕ → Bool) → ℕ → ℕ → Bool
fails accepted n zero = false
fails accepted n (suc count) = not (accepted n) || fails accepted (suc n) count

-- What a loop that starts at `w` and sends the packets leaves.
record Sends (accepted : ℕ → Bool) (w v : Writes) (ps : List (ℕ × Bytes)) : Type 0 where
  any_valid : v.any_valid ≡ w.any_valid || not (is_empty ps)
  any_failed : v.any_failed ≡ w.any_failed || fails accepted (length w.sent) (length ps)
  sent : v.sent ≡ w.sent ++ ps

after_packet :
    (accepted : ℕ → Bool) (w v : Writes) (apdu : Bytes) (a : ℕ) (ps : List (ℕ × Bytes))
    → Sends accepted (write_packet accepted apdu a w) v ps
    → Sends accepted w v ((a, apdu) ∷ ps)
unfolding write_packet
after_packet accepted w v apdu a ps s =
    let n : length (w.sent ++ (a, apdu) ∷ []) ≡ suc (length w.sent) =
      omega (arith, length-append w.sent ((a, apdu) ∷ [])) in
    record {
      any_valid = s.any_valid ∙ or_true w.any_valid;
      any_failed =
          s.any_failed
          ∙ rw n (
              either (accepted (length w.sent)) w.any_failed
                (fails accepted (suc (length w.sent)) (length ps)));
      sent = s.sent ∙ append_assoc w.sent ((a, apdu) ∷ []) ps;
    }
  where
    or_true : (b : Bool) → true ≡ b || true
    or_true true = refl
    or_true false = refl

    either :
        (ok failed rest : Bool) → (if ok then failed else true) || rest ≡ failed || (not ok || rest)
    either true true rest = refl
    either true false rest = refl
    either false true rest = refl
    either false false rest = refl

or_false : (b : Bool) → b ≡ b || false
or_false true = refl
or_false false = refl

write_all-Sends :
    (accepted : ℕ → Bool) (default apdu : Bytes) (addresses : List Bytes) (w : Writes)
    → Sends accepted w
        (write_all accepted default apdu addresses w)
        (packets default apdu addresses)
unfolding write_all
write_all-Sends accepted default apdu [] w = record {
  any_valid = or_false w.any_valid;
  any_failed = or_false w.any_failed;
  sent = sym (append-nil w.sent);
}
write_all-Sends accepted default apdu (addr_str ∷ addresses) w =
    elim (Option-cases (from_cometvisu default addr_str)) [
      | inl invalid ↦ rw (packets, invalid) (write_all-Sends accepted default apdu addresses w)
      | inr (parsed, valid) ↦
          let a = to_eibaddr parsed.group in
          let next = write_packet accepted apdu a w in
          rw (packets, valid)
            (after_packet accepted w (write_all accepted default apdu addresses next) apdu a
              (packets default apdu addresses)
              (write_all-Sends accepted default apdu addresses next))
    ]

-- The answer to a write: 404 if no address is valid, 503 if a packet was refused, else 200.
abbrev pub expected_result : Bool → Bool → WriteResult
expected_result true failed = record {
  http_status = 404;
  body = codes "{\"error\":\"invalid address format\"}";
}
expected_result false true = record {
  http_status = 503;
  body = codes "{\"error\":\"write failed\"}";
}
expected_result false false = write_ok

write_status-expected :
    (addresses : List Bytes) (w : Writes) (nothing : Bool)
    → is_empty addresses ≡ false
    → w.any_valid ≡ not nothing
    → (nothing ≡ true → w.any_failed ≡ false)
    → write_status addresses w ≡ expected_result nothing w.any_failed
unfolding write_status
write_status-expected addresses w true given v f = rw (v, given)
write_status-expected addresses w false given v f = elim (Bool-cases w.any_failed) [
  | inl failed ↦ rw (v, failed)
  | inr fine ↦ rw (v, fine)
]

none_fail :
    (accepted : ℕ → Bool) (ps : List (ℕ × Bytes)) (failed : Bool)
    → failed ≡ fails accepted 0 (length ps)
    → is_empty ps ≡ true
    → failed ≡ false
none_fail accepted [] failed e h = e
none_fail accepted (p ∷ ps) failed e h = absurd cc

write_value-sends :
    (accepted : ℕ → Bool) (default : Bytes) (addresses : List Bytes) (value : Bytes) (b : ℕ)
    (rest : Bytes)
    → is_empty addresses ≡ false
    → hex_decode value ≡ b ∷ rest
    → b / 128 % 2 ≡ 1
    → (let ps = packets default (0x00 ∷ b ∷ rest) addresses in
        write_value accepted default addresses value
        ≡ (expected_result (is_empty ps) (fails accepted 0 (length ps)), ps))
unfolding write_value
write_value-sends accepted default addresses value b rest given decoded bit =
    let ps = packets default (0x00 ∷ b ∷ rest) addresses in
    let w = write_all accepted default (0x00 ∷ b ∷ rest) addresses no_writes in
    let s = write_all-Sends accepted default (0x00 ∷ b ∷ rest) addresses no_writes in
    let mask : bit_and b 0x80 ≡ 0x80 = omega (arith, bit_and-0x80 b) in
    let status =
      write_status-expected addresses w (is_empty ps) given s.any_valid
        (none_fail accepted ps w.any_failed s.any_failed) in
    rw (decoded, mask, status, s.any_failed, s.sent)

checked :
    (accepted : ℕ → Bool) (default : Bytes) (addresses : List Bytes) (value : Bytes)
    (session : Bool × SessionStore) (result : WriteResult) (ps : List (ℕ × Bytes))
    → write_value accepted default addresses value ≡ (result, ps)
    → write_checked accepted default addresses value session ≡ (
        let (valid, after) = session in
        if valid then record { result = result; sent = ps; sessions = after } else record {
          result = record { http_status = 401; body = codes "{\"error\":\"invalid session\"}" };
          sent = [];
          sessions = after;
        })
unfolding write_checked
checked accepted default addresses value (true, after) result ps e = rw e
checked accepted default addresses value (false, after) result ps e = refl

-- With an address, a value that decodes to a write, and a session that is valid or not named, one
-- packet goes to each valid address, in order, with the decoded bytes behind a zero byte; the answer
-- is 404 if no address is valid, 503 if a packet was refused, and 200 otherwise. With an invalid
-- session nothing is sent and the answer is 401.
pub handle_write-sends :
    (accepted : ℕ → Bool) (default : Bytes) (now : ℕ) (raw value : Bytes) (b : ℕ) (rest : Bytes)
    (sessions : SessionStore)
    → is_empty (get_all (codes "a") (query_string raw)) ≡ false
    → QueryString.get (codes "v") (query_string raw) ≡ some value
    → hex_decode value ≡ b ∷ rest
    → b / 128 % 2 ≡ 1
    → (let params = query_string raw in
        let ps = packets default (0x00 ∷ b ∷ rest) (get_all (codes "a") params) in
        let (valid, after) = session_valid params now sessions in
        handle_write accepted default now raw sessions ≡ (
          if valid
          then record {
            result = expected_result (is_empty ps) (fails accepted 0 (length ps));
            sent = ps;
            sessions = after;
          }
          else record {
            result = record { http_status = 401; body = codes "{\"error\":\"invalid session\"}" };
            sent = [];
            sessions = after;
          }))
unfolding handle_write
handle_write-sends accepted default now raw value b rest sessions given found decoded bit =
    let params = query_string raw in
    let addresses = get_all (codes "a") params in
    let e = write_value-sends accepted default addresses value b rest given decoded bit in
    let ps = packets default (0x00 ∷ b ∷ rest) addresses in
    rw (given, found)
      (checked accepted default addresses value (session_valid params now sessions)
        (expected_result (is_empty ps) (fails accepted 0 (length ps))) ps e)

-- ===== src/Handlers/Write.antt =====
-- src/handlers/write_handler.cpp: the endpoint /w. `accepted n` is the result of the call number `n` of
-- `send_group_packet`; the packets that the handler passes to it are part of the result.
pub mod Sending
pub mod Packets
use Prim.Native.Nat.{bit_and}
use cometvisu_knxd_fcgi.Util.QueryString
use cometvisu_knxd_fcgi.Util.QueryString.{Params, query_string, get_all}
use cometvisu_knxd_fcgi.State.SessionStore.{SessionStore, is_valid}
use cometvisu_knxd_fcgi.Prelude.{
  ℕ, Bool, true, false, ◌&&◌, ◌||◌, not, none, some, List, [], ◌∷◌, ◌++◌, Bytes, ◌==◌,
  if◌then◌else◌, length, codes, get_or, is_empty,
}
use cometvisu_knxd_fcgi.Knxd.Address.{from_cometvisu, to_eibaddr}
use cometvisu_knxd_fcgi.Util.Hex.{hex_decode}

pub record WriteResult : Type 0 where
  pub http_status : ℕ
  pub body : Bytes

abbrev pub write_ok : WriteResult
write_ok = record { http_status = 200; body = [] }

-- `any_valid`, `any_failed`, and the packets passed on so far.
pub record Writes : Type 0 where
  pub any_valid : Bool
  pub any_failed : Bool
  pub sent : List (ℕ × Bytes)

abbrev pub no_writes : Writes
no_writes = record { any_valid = false; any_failed = false; sent = [] }

-- `if (!knxd_.send_group_packet(eibaddr, apdu)) any_failed = true;`
unfoldable pub write_packet : (ℕ → Bool) → Bytes → ℕ → Writes → Writes
write_packet accepted apdu eibaddr w = record {
  any_valid = true;
  any_failed = if accepted (length w.sent) then w.any_failed else true;
  sent = w.sent ++ (eibaddr, apdu) ∷ [];
}

-- "Write to each address"
unfoldable pub write_all : (ℕ → Bool) → Bytes → Bytes → List Bytes → Writes → Writes
write_all accepted default apdu [] w = w
write_all accepted default apdu (addr_str ∷ addresses) w =
    let done : Writes = elim (from_cometvisu default addr_str) [
      | none ↦ w
      | some parsed ↦ write_packet accepted apdu (to_eibaddr parsed.group) w
    ] in
    write_all accepted default apdu addresses done

-- From "404 only when all addresses had an invalid format" to the end.
unfoldable pub write_status : List Bytes → Writes → WriteResult
write_status addresses w =
    if w.any_valid && w.any_failed
    then record { http_status = 503; body = codes "{\"error\":\"write failed\"}" }
    else if not w.any_valid && not (is_empty addresses)
    then record { http_status = 404; body = codes "{\"error\":\"invalid address format\"}" }
    else write_ok

-- From "Decode hex value".
unfoldable pub write_value :
    (ℕ → Bool) → Bytes → List Bytes → Bytes → WriteResult × List (ℕ × Bytes)
write_value accepted default addresses value =
    let hex_data = hex_decode value in
    let w = write_all accepted default (0x00 ∷ hex_data) addresses no_writes in
    if is_empty hex_data && not (is_empty value)
    then (write_ok, [])
    else if is_empty hex_data || not (bit_and (get_or hex_data 0 0) 0x80 == 0x80)
    then (write_ok, [])
    else (write_status addresses w, w.sent)

-- "Session validation"
unfoldable pub session_valid : Params → ℕ → SessionStore → Bool × SessionStore
session_valid params now sessions = elim (QueryString.get (codes "s") params) [
  | none ↦ (true, sessions)
  | some s ↦ is_valid s now sessions
]

pub record Written : Type 0 where
  pub result : WriteResult
  pub sent : List (ℕ × Bytes)
  pub sessions : SessionStore

unfoldable pub write_checked :
    (ℕ → Bool) → Bytes → List Bytes → Bytes → Bool × SessionStore → Written
write_checked accepted default addresses value (false, sessions) = record {
  result = record { http_status = 401; body = codes "{\"error\":\"invalid session\"}" };
  sent = [];
  sessions = sessions;
}
write_checked accepted default addresses value (true, sessions) =
    let (result, sent) = write_value accepted default addresses value in
    record { result = result; sent = sent; sessions = sessions }

-- `WriteHandler::handle`
unfoldable pub handle_write : (ℕ → Bool) → Bytes → ℕ → Bytes → SessionStore → Written
handle_write accepted default now raw sessions =
    let params = query_string raw in
    let addresses = get_all (codes "a") params in
    if is_empty addresses
    then record { result = write_ok; sent = []; sessions = sessions }
    else elim (QueryString.get (codes "v") params) [
      | none ↦ record { result = write_ok; sent = []; sessions = sessions }
      | some value ↦
          write_checked accepted default addresses value (session_valid params now sessions)
    ]

-- ===== src/Tests/Write.antt =====
-- The endpoint /w of src/handlers/write_handler.cpp at a concrete request.
use cometvisu_knxd_fcgi.Handlers.Write.{session_valid, handle_write}
use cometvisu_knxd_fcgi.Handlers.Write.Sending.{packets, fails, expected_result, handle_write-sends}
use cometvisu_knxd_fcgi.Handlers.Write.Packets.{IsPacket, handle_write-IsPacket}
use cometvisu_knxd_fcgi.Util.QueryString
use cometvisu_knxd_fcgi.Util.QueryString.{Params, query_string, get_all, url_decode}
use cometvisu_knxd_fcgi.State.SessionStore.{SessionStore, no_sessions}
use cometvisu_knxd_fcgi.Prelude.Int.{pos}
use cometvisu_knxd_fcgi.Prelude.{
  ℕ, ◌≡◌, refl, Bool, true, false, some, [], ◌∷◌, arith, Bytes, if◌then◌else◌, length, codes,
  is_empty, All,
}
use cometvisu_knxd_fcgi.Util.Hex.{hex_decode, is_xdigit, nibble}

abbrev request : Bytes
request = codes "a=1/2/3&v=8042"

abbrev accepts : ℕ → Bool
accepts _ = true

abbrev nobody : SessionStore
nobody = no_sessions (pos 60) 10

request-addresses : is_empty (get_all (codes "a") (query_string request)) ≡ false
unfolding get_all query_string url_decode
request-addresses = refl

request-value : QueryString.get (codes "v") (query_string request) ≡ some (codes "8042")
unfolding QueryString.get query_string url_decode
request-value = refl

request-bytes : hex_decode (codes "8042") ≡ 0x80 ∷ 0x42 ∷ []
unfolding hex_decode is_xdigit nibble
request-bytes = refl

handle_write-sends_example :
    (let params = query_string request in
      let ps = packets [] (0x00 ∷ 0x80 ∷ 0x42 ∷ []) (get_all (codes "a") params) in
      let (valid, after) = session_valid params 5 nobody in
      handle_write accepts [] 5 request nobody ≡ (
        if valid
        then record {
          result = expected_result (is_empty ps) (fails accepts 0 (length ps));
          sent = ps;
          sessions = after;
        }
        else record {
          result = record { http_status = 401; body = codes "{\"error\":\"invalid session\"}" };
          sent = [];
          sessions = after;
        }))
handle_write-sends_example =
    handle_write-sends accepts [] 5 request (codes "8042") 0x80 (0x42 ∷ []) nobody request-addresses
      request-value request-bytes (omega arith)

handle_write-IsPacket_example : All IsPacket (handle_write accepts [] 5 request nobody).sent
handle_write-IsPacket_example = handle_write-IsPacket accepts [] 5 request nobody

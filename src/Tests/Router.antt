-- ===== src/Tests/Router.antt =====
-- Two requests to src/router/router.cpp, a login and a write in its session.
use cometvisu_knxd_fcgi.Prelude.Int.{pos}
use cometvisu_knxd_fcgi.Fcgi.Request.{FcgiRequest, path}
use cometvisu_knxd_fcgi.Fcgi.Server.{json_response}
use cometvisu_knxd_fcgi.Handlers.Login.{login_body}
use cometvisu_knxd_fcgi.Handlers.Read.{Look, Surroundings}
use cometvisu_knxd_fcgi.Handlers.Write.Sending.{packets, fails}
use cometvisu_knxd_fcgi.State.SessionStore.{
  SessionStore, no_sessions, expired, generate_id, id_digits,
}
use cometvisu_knxd_fcgi.State.SharedGroupCache.{LockResult, create}
use cometvisu_knxd_fcgi.Util.QueryString
use cometvisu_knxd_fcgi.Util.QueryString.{query_string, get_all, has, url_decode}
use cometvisu_knxd_fcgi.Util.Hex.{hex_decode, hex_char, is_xdigit, nibble}
use cometvisu_knxd_fcgi.Router.{Context, Routed, route}
use cometvisu_knxd_fcgi.Router.Session.{IsLogin, IsWrite, Answered, route-session}
use cometvisu_knxd_fcgi.Prelude.{
  ℕ, ◌≡◌, refl, inl, true, not, none, some, [], ◌∷◌, Bytes, length, codes,
}

abbrev look : Look
look = record { time = 9; lock = LockResult.acquired; data_ = create 4 }

abbrev quiet : Surroundings
quiet = record {
  first = λ a. look;
  place = look;
  rounds = λ n. record { elapsed = 9; before = look; wakes = []; after = look };
  arrange = λ values. values;
}

abbrev context : ℕ → Context
context now = record {
  setup = record {
    base_url = [];
    version = [];
    git_hash = [];
    knxd_build_version = [];
    knxd_build_git_hash = [];
    extra_config = none;
  };
  default_namespace = [];
  longpoll_timeout_sec = pos 30;
  now = now;
  created = now;
  num = 7;
  surroundings = quiet;
  accepted = λ n. true;
}

abbrev request : Bytes → Bytes → FcgiRequest
request where_to query = record {
  request_method = codes "GET";
  request_uri = [];
  query_string = query;
  content_type = [];
  content = [];
  script_name = [];
  path_info = where_to;
  server_protocol = [];
}

abbrev login : FcgiRequest
login = request (codes "/l") (codes "u=x")

abbrev write : FcgiRequest
write = request (codes "/w") (codes "s=0000000000000007&a=1/2/3&v=80")

login-IsLogin : IsLogin login
unfolding path has query_string url_decode
login-IsLogin = record { endpoint = refl; named = inl refl }

write-IsWrite : IsWrite (generate_id 7) 0x80 [] write
unfolding path QueryString.get get_all query_string url_decode hex_decode is_xdigit nibble
    generate_id id_digits hex_char
write-IsWrite = record {
  endpoint = refl;
  session = refl;
  addressed = refl;
  value = codes "80";
  has_value = refl;
  decoded = refl;
  writes = refl;
}

abbrev store : SessionStore
store = no_sessions (pos 60) 10

route-session_example :
    (let ps =
        packets [] (0x00 ∷ 0x80 ∷ []) (get_all (codes "a") (query_string write.query_string)) in
      let young = not (expired (pos 60) 8 (record { id = generate_id 7; created = 5 })) in
      (r : Routed) × ((route 1 (context 5) login store ≡ some r)
        × ((r.response ≡ json_response 200 (login_body (context 5).setup (generate_id 7)))
            × Answered young ps
                (fails (λ n. true) 0 (length ps))
                (route 1 (context 8) write r.sessions))))
route-session_example =
    route-session 1 (context 5) (context 8) login write store 0x80 [] login-IsLogin write-IsWrite

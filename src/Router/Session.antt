-- ===== src/Router/Session.antt =====
-- A session through src/router/router.cpp: a login at /l, then a write at /w with the session.
use mathlib.Core.Path.{subst}
use cometvisu_knxd_fcgi.Util.QueryString
use cometvisu_knxd_fcgi.Util.QueryString.{query_string, get_all, has}
use cometvisu_knxd_fcgi.Util.Hex.{hex_decode}
use cometvisu_knxd_fcgi.State.SessionStore.{
  SessionStore, expired, generate_id, create_session, is_valid,
}
use cometvisu_knxd_fcgi.State.SessionStore.Lifetime.{answer, create_session-answer}
use cometvisu_knxd_fcgi.Fcgi.Request.{FcgiRequest, path}
use cometvisu_knxd_fcgi.Fcgi.Server.{json_response}
use cometvisu_knxd_fcgi.Handlers.Login.{handle_login, login_body}
use cometvisu_knxd_fcgi.Handlers.Write.{Written, handle_write, session_valid}
use cometvisu_knxd_fcgi.Handlers.Write.Sending.{packets, fails, expected_result, handle_write-sends}
use cometvisu_knxd_fcgi.Router.{Context, Routed, from_login, from_write, route}
use cometvisu_knxd_fcgi.Prelude.{
  ℕ, ◌/◌, ◌%◌, ◌≡◌, ◌⊎◌, inl, inr, true, false, some, ◌∷◌, Bytes, Bool-cases, codes, is_empty, refl,
  ap, Bool, Option, List, [], if◌then◌else◌, length, sym, ◌∙◌, not,
}

-- A login with a user or a password.
pub record IsLogin (request : FcgiRequest) : Type 0 where
  pub endpoint : path request ≡ codes "/l"
  pub named :
      (has (codes "u") (query_string request.query_string) ≡ true)
      ⊎ (has (codes "p") (query_string request.query_string) ≡ true)

-- A write of a value, in a session.
pub record IsWrite (session_id : Bytes) (b : ℕ) (rest : Bytes) (request : FcgiRequest)
    : Type 0 where
  pub endpoint : path request ≡ codes "/w"
  pub session : QueryString.get (codes "s") (query_string request.query_string) ≡ some session_id
  pub addressed : is_empty (get_all (codes "a") (query_string request.query_string)) ≡ false
  pub value : Bytes
  pub has_value : QueryString.get (codes "v") (query_string request.query_string) ≡ some value
  pub decoded : hex_decode value ≡ b ∷ rest
  pub writes : b / 128 % 2 ≡ 1

route-login :
    (fuel : ℕ) (c : Context) (request : FcgiRequest) (st : SessionStore)
    → IsLogin request
    → route fuel c request st
      ≡ some (
          let (id, after) = create_session false c.now c.created c.num st in
          from_login (login_body c.setup id, after))
unfolding route handle_login
route-login fuel c request st h = elim h.named [
  | inl u ↦ rw (h.endpoint, u)
  | inr p ↦ elim (Bool-cases (has (codes "u") (query_string request.query_string))) [
    | inl u ↦ rw (h.endpoint, u)
    | inr n ↦ rw (h.endpoint, n, p)
  ]
]

route-write :
    (fuel : ℕ) (c : Context) (request : FcgiRequest) (st : SessionStore)
    → path request ≡ codes "/w"
    → route fuel c request st
      ≡ some
          (from_write (handle_write c.accepted c.default_namespace c.now request.query_string st))
unfolding route
route-write fuel c request st h = rw h

-- What a write leaves: the packets, or the refusal.
pub record Answered (young : Bool) (ps : List (ℕ × Bytes)) (failed : Bool) (outcome : Option Routed)
    : Type 0 where
  pub routed : Routed
  pub ends : outcome ≡ some routed
  pub sent : routed.sent ≡ (if young then ps else [])
  pub status :
      routed.response.status_code
      ≡ (if young then (expected_result (is_empty ps) failed).http_status else 401)

-- With a session that is valid, and with one that is not.
abbrev written : List (ℕ × Bytes) → Bool → Bool × SessionStore → Written
written ps failed (true, after) = record {
  result = expected_result (is_empty ps) failed;
  sent = ps;
  sessions = after;
}
written ps failed (false, after) = record {
  result = record { http_status = 401; body = codes "{\"error\":\"invalid session\"}" };
  sent = [];
  sessions = after;
}

written-if :
    (ps : List (ℕ × Bytes)) (failed : Bool) (session : Bool × SessionStore)
    → (let (valid, after) = session in
        if valid
        then (let good : Written = record {
          result = expected_result (is_empty ps) failed;
          sent = ps;
          sessions = after;
        } in
            good)
        else record {
          result = record { http_status = 401; body = codes "{\"error\":\"invalid session\"}" };
          sent = [];
          sessions = after;
        })
      ≡ written ps failed session
written-if ps failed (true, after) = refl
written-if ps failed (false, after) = refl

session_valid-some :
    (request : FcgiRequest) (id : Bytes) (now : ℕ) (st : SessionStore)
    → QueryString.get (codes "s") (query_string request.query_string) ≡ some id
    → session_valid (query_string request.query_string) now st ≡ is_valid id now st
unfolding session_valid
session_valid-some request id now st h = rw (session_valid, h)

written-Answered :
    (young : Bool) (ps : List (ℕ × Bytes)) (failed : Bool) (after : SessionStore) (w : Written)
    → w ≡ written ps failed (young, after)
    → Answered young ps failed (some (from_write w))
written-Answered true ps failed after w e = record {
  routed = from_write w;
  ends = refl;
  sent = ap (λ (x : Written). x.sent) e;
  status = ap (λ (x : Written). x.result.http_status) e;
}
written-Answered false ps failed after w e = record {
  routed = from_write w;
  ends = refl;
  sent = ap (λ (x : Written). x.sent) e;
  status = ap (λ (x : Written). x.result.http_status) e;
}

write-Answered :
    (fuel : ℕ) (c : Context) (request : FcgiRequest) (st : SessionStore) (id : Bytes) (b : ℕ)
    (rest : Bytes)
    → IsWrite id b rest request
    → (let ps =
          packets c.default_namespace
            (0x00 ∷ b ∷ rest)
            (get_all (codes "a") (query_string request.query_string)) in
        Answered (answer id c.now st) ps (fails c.accepted 0 (length ps)) (route fuel c request st))
write-Answered fuel c request st id b rest h =
    let raw = request.query_string in
    let ps =
      packets c.default_namespace (0x00 ∷ b ∷ rest) (get_all (codes "a") (query_string raw)) in
    let w = handle_write c.accepted c.default_namespace c.now raw st in
    let sends =
      handle_write-sends c.accepted c.default_namespace c.now raw h.value b rest st h.addressed
        h.has_value h.decoded h.writes in
    let session = session_valid-some request id c.now st h.session in
    let failed = fails c.accepted 0 (length ps) in
    subst (Answered (answer id c.now st) ps failed) (sym (route-write fuel c request st h.endpoint))
      (written-Answered (is_valid id c.now st).0 ps failed (is_valid id c.now st).1 w (
        sends
        ∙ written-if ps failed (session_valid (query_string raw) c.now st)
        ∙ ap (written ps failed) session))

-- A login with a user or a password, and later a write in its session, with an address and a value that decodes to a write. The login is answered with 200 and the new session. Before the session expires, the write sends one packet to each valid address and is answered by their results; from then on it sends nothing and is answered with 401.
pub route-session :
    (fuel : ℕ) (c c' : Context) (login write : FcgiRequest) (st : SessionStore) (b : ℕ)
    (rest : Bytes)
    → IsLogin login
    → IsWrite (generate_id c.num) b rest write
    → (let ps =
          packets c'.default_namespace
            (0x00 ∷ b ∷ rest)
            (get_all (codes "a") (query_string write.query_string)) in
        let young = not (
          expired st.session_ttl_sec c'.now
            (record { id = generate_id c.num; created = c.created })) in
        (r : Routed) × ((route fuel c login st ≡ some r)
          × ((r.response ≡ json_response 200 (login_body c.setup (generate_id c.num)))
              × Answered young ps
                  (fails c'.accepted 0 (length ps))
                  (route fuel c' write r.sessions))))
unfolding create_session
route-session fuel c c' login write st b rest h k =
    let (id, after) = create_session false c.now c.created c.num st in
    let ps =
      packets c'.default_namespace (0x00 ∷ b ∷ rest)
        (get_all (codes "a") (query_string write.query_string)) in
    (
      from_login (login_body c.setup id, after),
      (
        route-login fuel c login st h,
        (
          refl,
          subst
              (λ (young : Bool).
                Answered young ps (fails c'.accepted 0 (length ps)) (route fuel c' write after))
              (create_session-answer c.now c.created c.num c'.now st)
              (write-Answered fuel c' write after (generate_id c.num) b rest k),
        ),
      ),
    )

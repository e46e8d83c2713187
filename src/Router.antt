-- ===== src/Router.antt =====
-- src/router/router.cpp: the endpoints behind their paths.
pub mod Session
use cometvisu_knxd_fcgi.Prelude.Int.{ℤ}
use cometvisu_knxd_fcgi.State.SessionStore.{SessionStore}
use cometvisu_knxd_fcgi.Fcgi.Request.{FcgiRequest, path}
use cometvisu_knxd_fcgi.Fcgi.Server.{FcgiResponse, json_response}
use cometvisu_knxd_fcgi.Handlers.Login.{Setup, handle_login}
use cometvisu_knxd_fcgi.Handlers.Read.{Surroundings, Reply, handle_read}
use cometvisu_knxd_fcgi.Handlers.Write.{Written, handle_write}
use cometvisu_knxd_fcgi.Prelude.{
  ℕ, Bool, Option, none, some, List, [], Bytes, if◌then◌else◌, bytes_eq, codes,
}

-- What the handlers find: the set-up of the login, the default namespace, the timeout, the clocks and
-- random number, the looks at the cache, and the results of `send_group_packet`.
pub record Context : Type 0 where
  pub setup : Setup
  pub default_namespace : Bytes
  pub longpoll_timeout_sec : ℤ
  pub now : ℕ
  pub created : ℕ
  pub num : ℕ
  pub surroundings : Surroundings
  pub accepted : ℕ → Bool

-- The response, the packets that were sent, and the sessions.
pub record Routed : Type 0 where
  pub response : FcgiResponse
  pub sent : List (ℕ × Bytes)
  pub sessions : SessionStore

abbrev pub from_login : Bytes × SessionStore → Routed
from_login (body, sessions) = record {
  response = json_response 200 body;
  sent = [];
  sessions = sessions;
}

abbrev pub from_read : Option (Reply × SessionStore) → Option Routed
from_read none = none
from_read (some (r, sessions)) = some (record {
  response = json_response r.result.http_status r.result.body;
  sent = r.sent;
  sessions = sessions;
})

abbrev pub from_write : Written → Routed
from_write w = record {
  response = json_response w.result.http_status [];
  sent = w.sent;
  sessions = w.sessions;
}

-- `none` means that the read handler has not ended after `fuel` rounds.
unfoldable pub route : ℕ → Context → FcgiRequest → SessionStore → Option Routed
route fuel c request sessions =
    let p = path request in
    let raw = request.query_string in
    if bytes_eq p (codes "/l")
    then some (from_login (handle_login c.setup c.now c.created c.num raw sessions))
    else if bytes_eq p (codes "/r")
    then from_read (
        handle_read fuel c.default_namespace c.longpoll_timeout_sec c.surroundings c.now raw
          sessions)
    else if bytes_eq p (codes "/w")
    then some (from_write (handle_write c.accepted c.default_namespace c.now raw sessions))
    else some (record {
      response = json_response 404 (codes "{\"error\":\"unknown endpoint\"}");
      sent = [];
      sessions = sessions;
    })

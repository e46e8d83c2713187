-- ===== src/Handlers/Read.antt =====
-- src/handlers/read_handler.{h,cpp}: the endpoint /r. What an operation finds in the cache, the clock and
-- the returns of the wait are arguments; the packets passed to `send_group_packet` are part of the result.
pub mod Parameters
pub mod Answer
pub mod Polling
pub mod Addresses
pub mod Cached
pub mod Refusals
use cometvisu_knxd_fcgi.Prelude.Int.{ℤ, pos, negsuc}
use cometvisu_knxd_fcgi.Prelude.Overflow.{wrap_int}
use cometvisu_knxd_fcgi.Util.JsonBuilder.{
  JsonBuilder, add_string, add_number, add_key, start_object, end_object, new_builder,
}
use cometvisu_knxd_fcgi.Util.Hex.{hex_encode}
use cometvisu_knxd_fcgi.Util.QueryString.{Params, query_string, get_all}
use cometvisu_knxd_fcgi.Knxd.Address.{from_cometvisu, to_cometvisu, to_eibaddr, from_eibaddr}
use cometvisu_knxd_fcgi.State.SessionStore.{SessionStore}
use cometvisu_knxd_fcgi.State.SharedGroupCache
use cometvisu_knxd_fcgi.State.SharedGroupCache.{SharedCacheData, LockResult}
use cometvisu_knxd_fcgi.State.SharedGroupCache.Waiting.{Wake, wait_for_new_data}
use cometvisu_knxd_fcgi.Handlers.Write.{session_valid}
use cometvisu_knxd_fcgi.Handlers.Read.Parameters.{Plan, read_timeout, read_position, plan_read}
use cometvisu_knxd_fcgi.Prelude.{
  ℕ, zero, suc, ◌-◌, ◌*◌, Bool, true, false, ◌||◌, not, Option, none, some, List, [], ◌∷◌, Bytes,
  ltb, ◌==◌, if◌then◌else◌, codes, is_empty, leb,
}
use cometvisu_knxd_fcgi.State.GroupCache.{Delta}

-- What an operation on the cache finds: the clock, the result of the lock, and the region.
pub record Look : Type 0 where
  pub time : ℕ
  pub lock : LockResult
  pub data_ : SharedCacheData

-- One round of the poll loop: the seconds since `tstart`, the wait, and what `get_delta` finds.
pub record Round : Type 0 where
  pub elapsed : ℕ
  pub before : Look
  pub wakes : List Wake
  pub after : Look

-- All that a request finds: each address of the initial read, the position behind it, and the rounds;
-- `arrange` is the order in which an `unordered_map` gives its members.
pub record Surroundings : Type 0 where
  pub first : ℕ → Look
  pub place : Look
  pub rounds : ℕ → Round
  pub arrange : List (ℕ × Bytes) → List (ℕ × Bytes)

pub record ReadResult : Type 0 where
  pub http_status : ℕ
  pub body : Bytes

-- `json`, `already_written` and `lastpos`
pub record Reading : Type 0 where
  pub json : JsonBuilder
  pub already_written : List ℕ
  pub lastpos : ℕ

-- `std::set<uint16_t>::insert`
unfoldable pub set_insert : ℕ → List ℕ → List ℕ
set_insert a [] = a ∷ []
set_insert a (b ∷ s) =
    let rest = set_insert a s in if ltb a b then a ∷ b ∷ s else if a == b then b ∷ s else b ∷ rest

unfoldable pub contains : ℕ → List ℕ → Bool
contains a [] = false
contains a (b ∷ s) = a == b || contains a s

-- "Build EIB address set", with the set so far.
unfoldable pub eib_addresses : Bytes → List Bytes → List ℕ → List ℕ
eib_addresses default [] set = set
eib_addresses default (addr_str ∷ addresses) set = elim (from_cometvisu default addr_str) [
  | none ↦ eib_addresses default addresses set
  | some parsed ↦ eib_addresses default addresses (set_insert (to_eibaddr parsed.group) set)
]

-- The lambda `addr_key`.
unfoldable pub addr_key : Bytes → ℕ → Bytes
addr_key default a = to_cometvisu (record { ns = default; group = from_eibaddr a })

-- A value in the answer.
unfoldable pub add_value : Bytes → ℕ × Bytes → Reading → Reading
add_value default (addr, value) r = record r {
  json = add_string (addr_key default addr) (hex_encode value) r.json;
  already_written = set_insert addr r.already_written;
}

-- What `cache_.get` returns in the initial read.
unfoldable pub cached : Surroundings → ℤ → ℕ → Option Bytes
cached e max_age_sec addr =
    let l = e.first addr in SharedGroupCache.get l.lock l.time addr max_age_sec (some l.data_)

-- "Initial read"
unfoldable pub initial_values : Bytes → Surroundings → ℤ → List ℕ → Reading → Reading
initial_values default e max_age_sec [] r = r
initial_values default e max_age_sec (addr ∷ addrs) r = elim (cached e max_age_sec addr) [
  | none ↦ initial_values default e max_age_sec addrs r
  | some value ↦ initial_values default e max_age_sec addrs (add_value default (addr, value) r)
]

unfoldable pub initial_read : Bytes → Surroundings → ℤ → List ℕ → Reading → Reading
initial_read default e max_age_sec addrs r =
    if r.lastpos == 0
    then record (initial_values default e max_age_sec addrs r) {
      lastpos = SharedGroupCache.current_position e.place.data_;
    }
    else r

-- "t=0: send GroupValueRead for uncached addresses"
unfoldable pub read_requests : List ℕ → List ℕ → List (ℕ × Bytes)
read_requests already_written [] = []
read_requests already_written (addr ∷ addrs) =
    let rest = read_requests already_written addrs in
    if contains addr already_written then rest else (addr, 0x00 ∷ 0x00 ∷ []) ∷ rest

-- The loop over the values of a delta.
unfoldable pub delta_values : Bytes → List (ℕ × Bytes) → Reading → Reading
delta_values default [] r = r
delta_values default ((addr, value) ∷ values) r =
    if contains addr r.already_written
    then delta_values default values r
    else delta_values default values (add_value default (addr, value) r)

unfoldable pub query_delta : ℤ → List ℕ → Look → ℕ → Delta
query_delta max_age_sec addrs l lastpos =
    SharedGroupCache.get_delta l.lock l.time lastpos addrs max_age_sec (some l.data_)

-- From `get_delta` on.
unfoldable pub poll_delta : Bytes → Surroundings → Delta → Reading → Reading
poll_delta default e delta r = record (delta_values default (e.arrange delta.values) r) {
  lastpos = delta.position;
}

-- `wait_for_new_data(remaining * 1000)`, with the product of `int`.
unfoldable pub wait_round : ℕ → Round → Option Bool
wait_round timeout_sec round =
    let remaining = timeout_sec - round.elapsed in
    wait_for_new_data round.before.lock (wrap_int (remaining * 1000)) (some round.before.data_)
      round.wakes

-- What the wait returned, the rest of the loop being `next`.
abbrev pub after_news :
    (Reading → Option Reading) → (Reading → Reading) → Reading → Option Bool → Option Reading
after_news next query r none = none
after_news next query r (some false) = some r
after_news next query r (some true) = next (query r)

-- The poll loop from round number `n` on; `none` means that it has not ended after `fuel` rounds.
unfoldable pub poll_loop : ℕ → Bytes → Surroundings → ℕ → ℤ → List ℕ → ℕ → Reading → Option Reading
poll_loop zero default e timeout_sec max_age_sec addrs n r = none
poll_loop (suc fuel) default e timeout_sec max_age_sec addrs n r =
    let round = e.rounds n in
    let polled =
      after_news (poll_loop fuel default e timeout_sec max_age_sec addrs (suc n))
        (λ r'. poll_delta default e (query_delta max_age_sec addrs round.after r'.lastpos) r') r
        (wait_round timeout_sec round) in
    if not (is_empty r.already_written)
    then some r
    else if leb timeout_sec round.elapsed
    then some r
    else polled

abbrev pub poll : ℕ → Bytes → Surroundings → Plan → List ℕ → Reading → Option Reading
poll fuel default e p addrs r = elim p.timeout_sec [
  | pos (suc t) ↦ poll_loop fuel default e (suc t) p.max_age_sec addrs 0 r
  | _ ↦ some r
]

unfoldable pub finish_body : Reading → Bytes
finish_body r = (end_object (add_number (codes "i") (pos r.lastpos) (end_object r.json))).buffer

abbrev pub start_reading : ℕ → Reading
start_reading lastpos = record {
  json = start_object (add_key (codes "d") (start_object new_builder));
  already_written = [];
  lastpos = lastpos;
}

-- The result, and the packets that were sent.
pub record Reply : Type 0 where
  pub result : ReadResult
  pub sent : List (ℕ × Bytes)

abbrev pub refuse : ℕ → Bytes → Reply
refuse status body = record { result = record { http_status = status; body = body }; sent = [] }

abbrev pub give_answer : List (ℕ × Bytes) → Option Reading → Option Reply
give_answer sent none = none
give_answer sent (some r) =
    some (record { result = record { http_status = 200; body = finish_body r }; sent = sent })

-- `handle` from the first `start_object` on.
unfoldable pub read_values : ℕ → Bytes → Surroundings → Plan → List ℕ → Option Reply
read_values fuel default e p addrs =
    let r = initial_read default e p.max_age_sec addrs (start_reading p.lastpos) in
    let sent = if p.from_bus then read_requests r.already_written addrs else [] in
    give_answer sent (poll fuel default e p addrs r)

-- From the test of the address set on.
unfoldable pub read_addresses : ℕ → Bytes → Surroundings → Plan → List ℕ → Option Reply
read_addresses fuel default e p [] = some (refuse 404 (codes "{\"error\":\"no valid addresses\"}"))
read_addresses fuel default e p (a ∷ addrs) = read_values fuel default e p (a ∷ addrs)

-- Behind the test of the session.
unfoldable pub read_checked : ℕ → Bytes → ℤ → Surroundings → Params → List Bytes → Option Reply
read_checked fuel default longpoll_timeout_sec e params addresses =
    elim (plan_read longpoll_timeout_sec (read_position params) (read_timeout params)) [
      | none ↦ some (refuse 400 (codes "{\"error\":\"invalid timeout\"}"))
      | some p ↦ read_addresses fuel default e p (eib_addresses default addresses [])
    ]

abbrev pub in_session :
    (Unit {0} → Option Reply) → Bool × SessionStore → Option (Reply × SessionStore)
in_session checked (false, sessions) =
    some (refuse 401 (codes "{\"error\":\"invalid session\"}"), sessions)
in_session checked (true, sessions) = elim (checked tt) [
  | none ↦ none
  | some a ↦ some (a, sessions)
]

-- `ReadHandler::handle`
unfoldable pub handle_read :
    ℕ → Bytes → ℤ → Surroundings → ℕ → Bytes → SessionStore → Option (Reply × SessionStore)
handle_read fuel default longpoll_timeout_sec e now raw sessions =
    let params = query_string raw in
    let addresses = get_all (codes "a") params in
    if is_empty addresses
    then some (refuse 400 (codes "{\"error\":\"missing address\"}"), sessions)
    else in_session (λ _. read_checked fuel default longpoll_timeout_sec e params addresses)
        (session_valid params now sessions)

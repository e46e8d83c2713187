-- ===== src/State/SessionStore.antt =====
-- src/state/session_store.{h,cpp}: sessions with a time to live and a limit on their number. The
-- readings of the steady clock, in nanoseconds, and the random number are arguments. The list
-- holds the sessions in the order in which the hash map is traversed.
pub mod Table
pub mod Oldest
pub mod Limit
pub mod Lifetime
use cometvisu_knxd_fcgi.Prelude.Int.{ℤ, pos, negsuc}
use Prim.Native.Nat.{ℕ, suc}
use cometvisu_knxd_fcgi.Prelude.{
  Bytes, ℕ, List, Bool, [], leb, Option, ◌∷◌, codes, if◌then◌else◌, length, none, bytes_eq, ltb,
  ◌*◌, ◌^◌, zero, suc, ◌-◌, some, true, ◌/◌, false, ◌^◌, ◌*◌, ◌%◌,
}
use cometvisu_knxd_fcgi.Util.Hex.{hex_char}

pub record Session : Type 0 where
  pub id : Bytes
  pub created : ℕ

pub record SessionStore : Type 0 where
  pub session_ttl_sec : ℤ
  pub max_sessions : ℕ
  pub sessions : List Session

abbrev pub no_sessions : ℤ → ℕ → SessionStore
no_sessions session_ttl_sec max_sessions = record {
  session_ttl_sec = session_ttl_sec;
  max_sessions = max_sessions;
  sessions = [];
}

-- `age >= session_ttl_sec_`
unfoldable pub expired : ℤ → ℕ → Session → Bool
expired (pos ttl) now s = leb ttl ((now - s.created) / 1_000_000_000)
expired (negsuc _) now s = true

-- `sessions_.find(key)`
unfoldable pub find_session : Bytes → List Session → Option Session
find_session key [] = none
find_session key (s ∷ l) = if bytes_eq s.id key then some s else find_session key l

-- `sessions_.erase(key)`
unfoldable pub erase : Bytes → List Session → List Session
erase key [] = []
erase key (s ∷ l) = if bytes_eq s.id key then erase key l else s ∷ erase key l

-- `sessions_[s.id] = s`
unfoldable pub assign_session : Session → List Session → List Session
assign_session s [] = s ∷ []
assign_session s (t ∷ l) = if bytes_eq t.id s.id then s ∷ l else t ∷ assign_session s l

-- The loop of `cleanup_expired`.
unfoldable pub unexpired : ℤ → ℕ → List Session → List Session
unexpired ttl now [] = []
unexpired ttl now (s ∷ l) =
    if expired ttl now s then unexpired ttl now l else s ∷ unexpired ttl now l

unfoldable pub cleanup_expired : ℕ → SessionStore → SessionStore
cleanup_expired now st = record st { sessions = unexpired st.session_ttl_sec now st.sessions }

-- The loop that looks for the oldest session.
unfoldable pub oldest : Session → List Session → Session
oldest s [] = s
oldest s (t ∷ l) = oldest (if ltb t.created s.created then t else s) l

unfoldable pub evict : ℕ → List Session → List Session
evict max_sessions [] = []
evict max_sessions (s ∷ l) =
    if leb max_sessions (length (s ∷ l)) then erase (oldest s (s ∷ l)).id (s ∷ l) else s ∷ l

-- The loop of `generate_id` with the digits left.
unfoldable pub id_digits : ℕ → ℕ → Bytes
id_digits num zero = []
id_digits num (suc left) = hex_char (num / 2 ^ (4 * left) % 16) ∷ id_digits num left

unfoldable pub generate_id : ℕ → Bytes
generate_id num = id_digits num 16

-- `now` is the clock in `cleanup_expired`, `created` the clock at the end.
unfoldable pub create_session : Bool → ℕ → ℕ → ℕ → SessionStore → Bytes × SessionStore
create_session true now created num st = (codes "0", st)
create_session false now created num st =
    let clean = cleanup_expired now st in
    let kept = evict clean.max_sessions clean.sessions in
    let id = generate_id num in
    (id, record clean { sessions = assign_session (record { id = id; created = created }) kept })

unfoldable pub is_valid : Bytes → ℕ → SessionStore → Bool × SessionStore
is_valid session_id now st =
    if bytes_eq session_id (codes "0")
    then (true, st)
    else elim (find_session session_id st.sessions) [
      | none ↦ (false, st)
      | some s ↦
          if expired st.session_ttl_sec now s
          then (false, record st { sessions = erase session_id st.sessions })
          else (true, st)
    ]

unfoldable pub remove : Bytes → SessionStore → SessionStore
remove session_id st =
    if bytes_eq session_id (codes "0")
    then st
    else record st { sessions = erase session_id st.sessions }

unfoldable pub count : SessionStore → ℕ
count st = length st.sessions

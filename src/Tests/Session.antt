-- ===== src/Tests/Session.antt =====
-- The theorems on src/state/session_store.cpp at concrete inputs.
use cometvisu_knxd_fcgi.Prelude.Int.{pos}
use cometvisu_knxd_fcgi.State.SessionStore.{
  Session, find_session, generate_id, SessionStore, create_session, expired, id_digits,
}
use cometvisu_knxd_fcgi.State.SessionStore.Limit.{IsWellFormed, create_session-IsWellFormed}
use cometvisu_knxd_fcgi.Prelude.{◌≡◌, refl, ◌⊎◌, false, some, [], ◌∷◌, arith, bytes_eq}
use cometvisu_knxd_fcgi.State.SessionStore.Lifetime.{IsEvicted, create_session-keeps}
use cometvisu_knxd_fcgi.Util.Hex.{hex_char}

abbrev first : Session
first = record { id = generate_id 1; created = 0 }

abbrev store : SessionStore
store = record { session_ttl_sec = pos 60; max_sessions = 1; sessions = first ∷ [] }

store-IsWellFormed : IsWellFormed store
store-IsWellFormed = record { distinct = (unfold find_session in refl, tt); few = omega arith }

create_session-IsWellFormed_example :
    IsWellFormed (let (_, after) = create_session false 5 6 7 store in after)
create_session-IsWellFormed_example =
    create_session-IsWellFormed false 5 6 7 store store-IsWellFormed

first-found : find_session (generate_id 1) store.sessions ≡ some first
unfolding find_session generate_id id_digits hex_char
first-found = refl

first-young : expired (pos 60) 5 first ≡ false
unfolding expired
first-young = refl

first-differs : bytes_eq (generate_id 7) (generate_id 1) ≡ false
unfolding generate_id id_digits hex_char
first-differs = refl

create_session-keeps_example :
    (let (_, after) = create_session false 5 6 7 store in
      (find_session (generate_id 1) after.sessions ≡ some first) ⊎ IsEvicted 5 store first)
create_session-keeps_example =
    create_session-keeps 5 6 7 (generate_id 1) first store store-IsWellFormed first-found
      first-young first-differs

-- ===== src/Handlers/Read/Refusals.antt =====
-- The requests that src/handlers/read_handler.cpp refuses.
use cometvisu_knxd_fcgi.Prelude.Int.{ℤ, pos, negsuc}
use cometvisu_knxd_fcgi.Util.QueryString.{Params, query_string, get_all}
use cometvisu_knxd_fcgi.State.SessionStore.{SessionStore}
use cometvisu_knxd_fcgi.Handlers.Write.{session_valid}
use cometvisu_knxd_fcgi.Handlers.Read.Parameters.{Timeout, read_timeout, plan_read}
use cometvisu_knxd_fcgi.Handlers.Read.{
  Surroundings, read_addresses, read_checked, in_session, handle_read, eib_addresses, refuse,
  is_empty,
}
use cometvisu_knxd_fcgi.Prelude.{
  ℕ, zero, suc, ◌≡◌, refl, inl, inr, Bool, true, false, Option, none, some, List, [], ◌∷◌, Bytes,
  if◌then◌else◌, Bool-cases, codes, is_empty,
}

-- Why a request is refused: its addresses, whether its session is valid, `t`, and the addresses that are valid.
abbrev pub refusal : List Bytes → Bool → Timeout → List ℕ → Option (ℕ × Bytes)
refusal [] valid t addrs = some (400, codes "{\"error\":\"missing address\"}")
refusal (_ ∷ _) false t addrs = some (401, codes "{\"error\":\"invalid session\"}")
refusal (_ ∷ _) true Timeout.invalid addrs = some (400, codes "{\"error\":\"invalid timeout\"}")
refusal (_ ∷ _) true _ [] = some (404, codes "{\"error\":\"no valid addresses\"}")
refusal (_ ∷ _) true _ (_ ∷ _) = none

missing :
    (addresses : List Bytes) (valid : Bool) (t : Timeout) (addrs : List ℕ) (status : ℕ)
    (body : Bytes)
    → is_empty addresses ≡ true
    → refusal addresses valid t addrs ≡ some (status, body)
    → refuse 400 (codes "{\"error\":\"missing address\"}") ≡ refuse status body
missing [] valid t addrs status body nothing h = cc
missing (s ∷ ss) valid t addrs status body nothing h = absurd cc

module _ (fuel : ℕ) (default : Bytes) (longpoll_timeout_sec : ℤ) (e : Surroundings)
    (params : Params) where
  checked_refuses :
      (addresses : List Bytes) (t : Timeout) (addrs : List ℕ) (status : ℕ) (body : Bytes)
      → read_timeout params ≡ t
      → eib_addresses default addresses [] ≡ addrs
      → is_empty addresses ≡ false
      → refusal addresses true t addrs ≡ some (status, body)
      → read_checked fuel default longpoll_timeout_sec e params addresses
        ≡ some (refuse status body)
  unfolding read_checked plan_read read_addresses
  checked_refuses [] t addrs status body et ea given h = absurd cc
  checked_refuses (s ∷ ss) Timeout.invalid addrs status body et ea given h =
      rw (read_checked, et, plan_read) cc
  checked_refuses (s ∷ ss) Timeout.not_provided [] status body et ea given h =
      rw (read_checked, et, plan_read, ea, read_addresses) cc
  checked_refuses (s ∷ ss) (Timeout.provided (pos zero)) [] status body et ea given h =
      rw (read_checked, et, plan_read, ea, read_addresses) cc
  checked_refuses (s ∷ ss) (Timeout.provided (pos (suc n))) [] status body et ea given h =
      rw (read_checked, et, plan_read, ea, read_addresses) cc
  checked_refuses (s ∷ ss) (Timeout.provided (negsuc n)) [] status body et ea given h =
      rw (read_checked, et, plan_read, ea, read_addresses) cc
  checked_refuses (s ∷ ss) Timeout.not_provided (a ∷ addrs) status body et ea given h = absurd cc
  checked_refuses (s ∷ ss) (Timeout.provided z) (a ∷ addrs) status body et ea given h = absurd cc

  session_refuses :
      (addresses : List Bytes) (session : Bool × SessionStore) (status : ℕ) (body : Bytes)
      → is_empty addresses ≡ false
      → refusal addresses session.0 (read_timeout params) (eib_addresses default addresses [])
        ≡ some (status, body)
      → in_session (λ _. read_checked fuel default longpoll_timeout_sec e params addresses) session
        ≡ some (refuse status body, session.1)
  session_refuses [] session status body given h = absurd cc
  session_refuses (s ∷ ss) (false, after) status body given h = cc
  session_refuses (s ∷ ss) (true, after) status body given h = rw (
      checked_refuses (s ∷ ss) (read_timeout params) (eib_addresses default (s ∷ ss) []) status body
        refl refl refl h)

-- A request without an address, with an invalid session, with a `t` that is no `int`, or without a
-- valid address, in this order, gets its status at once, whatever the cache holds, and no packet is sent.
pub handle_read-refuses :
    (fuel : ℕ) (default : Bytes) (longpoll_timeout_sec : ℤ) (e : Surroundings) (now : ℕ)
    (raw : Bytes) (sessions : SessionStore) (status : ℕ) (body : Bytes)
    → (let params = query_string raw in
        let addresses = get_all (codes "a") params in
        refusal addresses
          (session_valid params now sessions).0
          (read_timeout params)
          (eib_addresses default addresses [])
        ≡ some (status, body))
    → handle_read fuel default longpoll_timeout_sec e now raw sessions
      ≡ some (
        refuse status body,
        if is_empty (get_all (codes "a") (query_string raw))
            then sessions
            else (session_valid (query_string raw) now sessions).1,
      )
unfolding handle_read
handle_read-refuses fuel default longpoll_timeout_sec e now raw sessions status body h =
    elim (Bool-cases (is_empty (get_all (codes "a") (query_string raw)))) [
      | inl nothing ↦
          let same =
            missing (get_all (codes "a") (query_string raw))
              (session_valid (query_string raw) now sessions).0 (read_timeout (query_string raw))
              (eib_addresses default (get_all (codes "a") (query_string raw)) []) status body
              nothing h in
          rw (nothing, same)
      | inr given ↦ rw given (
          session_refuses fuel default longpoll_timeout_sec e (query_string raw)
            (get_all (codes "a") (query_string raw)) (session_valid (query_string raw) now sessions)
            status body given h)
    ]

-- ===== src/Tests/Read.antt =====
-- The theorems on src/handlers/read_handler.cpp and on `wait_for_new_data` at concrete inputs.
use cometvisu_knxd_fcgi.Util.QueryString
use cometvisu_knxd_fcgi.Util.QueryString.{query_string, get_all, url_decode}
use cometvisu_knxd_fcgi.Handlers.Write.{session_valid}
use cometvisu_knxd_fcgi.Handlers.Read.Parameters.{
  read_timeout, parse_timeout, bounded_number, all_digits, Timeout,
}
use cometvisu_knxd_fcgi.Handlers.Read.{eib_addresses}
use cometvisu_knxd_fcgi.Handlers.Read.Refusals.{refusal}
use cometvisu_knxd_fcgi.State.SharedGroupCache
use cometvisu_knxd_fcgi.Prelude.Int.{pos, negsuc}
use cometvisu_knxd_fcgi.State.SharedGroupCache.{
  SharedCacheData, LockResult, capacity, create, push_locked, get_locked, find_entry, find_slot,
  probe,
}
use cometvisu_knxd_fcgi.State.SharedGroupCache.Waiting.{
  Wake, WaitCall, wait_for_new_data, wait_locked, wait_loop,
}
use cometvisu_knxd_fcgi.State.SharedGroupCache.Waiting.Wakeup.{spurious, wait_for_new_data-push}
use cometvisu_knxd_fcgi.State.SessionStore.{SessionStore}
use cometvisu_knxd_fcgi.Handlers.Read.{
  Look, Round, Surroundings, refuse, read_values, handle_read, cached,
}
use cometvisu_knxd_fcgi.Handlers.Read.Parameters.{Plan}
use cometvisu_knxd_fcgi.Handlers.Read.Answer.{read_text}
use cometvisu_knxd_fcgi.Handlers.Read.Cached.{
  first_values, first_position, requests, PollAnswer, read_values-cached, read_values-polls,
}
use cometvisu_knxd_fcgi.Handlers.Read.Polling.{waited, ArrangeLaw}
use cometvisu_knxd_fcgi.Handlers.Read.Refusals.{handle_read-refuses}
use cometvisu_knxd_fcgi.Prelude.{
  ℕ, zero, suc, ◌<◌, ◌≡◌, ◌≢◌, refl, inr, true, false, none, some, [], ◌∷◌, ◌++◌, arith, codes,
  replicate, is_empty, Bytes, if◌then◌else◌,
}
use cometvisu_knxd_fcgi.State.GroupCache.{collect}
use cometvisu_knxd_fcgi.Knxd.Address.{is_digit}

abbrev region : SharedCacheData
region = create 4

abbrev wake : ℕ → Wake
wake generation = record { call = WaitCall.timed_out; generation = generation }

wait_for_new_data-push_example :
    (let wait = λ (w : Wake).
        wait_for_new_data LockResult.acquired
          (pos 1000)
          (some region)
          (replicate 2 (spurious region) ++ w ∷ []) in
      (wait (wake (push_locked 9 0x0a03 (1 ∷ []) region).generation) ≡ some true)
      × (wait (wake region.generation) ≡ some false))
wait_for_new_data-push_example =
    wait_for_new_data-push LockResult.acquired 1000 2 9 0x0a03 (1 ∷ []) region WaitCall.timed_out []
      refl (omega arith) (unfold create in omega arith)

abbrev look : SharedCacheData → Look
look d = record { time = 9; lock = LockResult.acquired; data_ = d }

abbrev round : Round
round = record { elapsed = 0; before = look region; wakes = wake 0 ∷ []; after = look region }

-- Nothing comes, and the time runs out in the second round.
abbrev late_round : ℕ → Round
late_round zero = round
late_round (suc _) = record round { elapsed = 2 }

abbrev around : Surroundings
around = record {
  first = λ a. look region;
  place = look region;
  rounds = late_round;
  arrange = λ values. values;
}

abbrev plan : Plan
plan = record { timeout_sec = pos 1; max_age_sec = negsuc 0; lastpos = 0; from_bus = true }

-- The first look finds a value.
abbrev filled : Surroundings
filled = record around { first = λ a. look (push_locked 9 a (1 ∷ []) region) }

read_values-cached_example :
    read_values 1 (codes "KNX") filled (record plan { timeout_sec = negsuc 0 }) (0x0a03 ∷ [])
    ≡ some (record {
      result = record {
        http_status = 200;
        body =
            read_text
              (codes "KNX")
              (first_values filled (record plan { timeout_sec = negsuc 0 }) (0x0a03 ∷ []))
              (first_position filled (record plan { timeout_sec = negsuc 0 }));
      };
      sent =
          requests
            (record plan { timeout_sec = negsuc 0 })
            (first_values filled (record plan { timeout_sec = negsuc 0 }) (0x0a03 ∷ []))
            (0x0a03 ∷ []);
    })
read_values-cached_example =
    read_values-cached 0 (codes "KNX") filled (record plan { timeout_sec = negsuc 0 }) (0x0a03 ∷ [])
      (inr λ h. h)

arrange-ArrangeLaw : ArrangeLaw around.arrange
arrange-ArrangeLaw = record { once = λ values h. h; empty = λ values. refl }

nothing_first : is_empty (first_values around plan (0x0a03 ∷ [])) ≡ true
unfolding collect cached SharedGroupCache.get get_locked find_entry find_slot probe create
nothing_first = refl

returns : (m : ℕ) → m < 1 → waited 1 (around.rounds m) ≢ none
unfolding wait_for_new_data wait_locked wait_loop create
returns zero h e = absurd cc
returns (suc m) h e = absurd (omega arith)

read_values-polls_example :
    PollAnswer
      (codes "KNX")
      around
      1
      plan
      (0x0a03 ∷ [])
      (read_values 9 (codes "KNX") around plan (0x0a03 ∷ []))
read_values-polls_example =
    read_values-polls 1 9 0 (codes "KNX") around plan (0x0a03 ∷ []) arrange-ArrangeLaw (tt, tt)
      nothing_first refl (omega arith) (omega arith) returns (omega arith)

abbrev sessions : SessionStore
sessions = record { sessions = []; max_sessions = 9; session_ttl_sec = pos 60 }

abbrev raw : Bytes
raw = codes "a=KNX:1/2/3&t=soon"

addresses_of : get_all (codes "a") (query_string raw) ≡ codes "KNX:1/2/3" ∷ []
unfolding query_string get_all url_decode
addresses_of = refl

timeout_of_raw : read_timeout (query_string raw) ≡ Timeout.invalid
unfolding query_string read_timeout parse_timeout QueryString.get url_decode bounded_number
    all_digits is_digit
timeout_of_raw = refl

session_of : session_valid (query_string raw) 5 sessions ≡ (true, sessions)
unfolding query_string session_valid QueryString.get url_decode
session_of = refl

refused :
    refusal
      (get_all (codes "a") (query_string raw))
      (session_valid (query_string raw) 5 sessions).0
      (read_timeout (query_string raw))
      (eib_addresses (codes "KNX") (get_all (codes "a") (query_string raw)) [])
    ≡ some (400, codes "{\"error\":\"invalid timeout\"}")
refused = rw (addresses_of, timeout_of_raw, session_of)

handle_read-refuses_example :
    handle_read 0 (codes "KNX") (pos 30) around 5 raw sessions
    ≡ some (
      refuse 400 (codes "{\"error\":\"invalid timeout\"}"),
      if is_empty (get_all (codes "a") (query_string raw))
          then sessions
          else (session_valid (query_string raw) 5 sessions).1,
    )
handle_read-refuses_example =
    handle_read-refuses 0 (codes "KNX") (pos 30) around 5 raw sessions 400
      (codes "{\"error\":\"invalid timeout\"}") refused

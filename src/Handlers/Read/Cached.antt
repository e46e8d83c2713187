-- ===== src/Handlers/Read/Cached.antt =====
-- The answers of src/handlers/read_handler.cpp as a whole.
use cometvisu_knxd_fcgi.Prelude.Int.{ℤ, pos, negsuc}
use cometvisu_knxd_fcgi.State.GroupCache.{collect}
use cometvisu_knxd_fcgi.State.SharedGroupCache.{current_position}
use cometvisu_knxd_fcgi.Handlers.Read.Parameters.{Plan}
use cometvisu_knxd_fcgi.Handlers.Read.{
  Surroundings, Reading, Reply, cached, contains, initial_values, initial_read, start_reading,
  read_requests, poll_loop, poll, read_values, is_empty,
}
use cometvisu_knxd_fcgi.Handlers.Read.Answer.{
  Shows, Shows-start, Shows-moved, keys, read_text, initial_values-Shows, finish_body-Shows,
}
use cometvisu_knxd_fcgi.Handlers.Read.Addresses.{Ascending, query_delta-Distinct}
use cometvisu_knxd_fcgi.Handlers.Read.Polling.{
  ArrangeLaw, Polls, waited, poll_loop-Polls, written_ends, something_written,
}
use cometvisu_knxd_fcgi.Prelude.{
  ℕ, ◌≡◌, inl, inr, List, [], Bytes, ◌==◌, if◌then◌else◌, Bool-cases, refl, some, ◌∷◌, zero, suc,
  ◌<◌, sym, ◌∙◌, ◌⊎◌, false, Option, arith, subst, is_empty, ◌+◌, ◌≢◌, true, none, ◌≤◌,
}

-- The reading behind the initial read.
abbrev pub first_reading : Bytes → Surroundings → Plan → List ℕ → Reading
first_reading default e p addrs =
    initial_read default e p.max_age_sec addrs (start_reading p.lastpos)

-- The values that the initial read finds, and the position behind it.
abbrev pub first_values : Surroundings → Plan → List ℕ → List (ℕ × Bytes)
first_values e p addrs = if p.lastpos == 0 then collect (cached e p.max_age_sec) addrs else []

abbrev pub first_position : Surroundings → Plan → ℕ
first_position e p = if p.lastpos == 0 then current_position e.place.data_ else p.lastpos

first_reading-Shows :
    (default : Bytes) (e : Surroundings) (p : Plan) (addrs : List ℕ)
    → Shows default (first_values e p addrs) (first_reading default e p addrs)
unfolding initial_read
first_reading-Shows default e p addrs = elim (Bool-cases (p.lastpos == 0)) [
  | inl initial ↦ rw initial (
      Shows-moved default (collect (cached e p.max_age_sec) addrs) (current_position e.place.data_)
        (initial_values default e p.max_age_sec addrs (start_reading p.lastpos))
        (initial_values-Shows default e p.max_age_sec addrs [] (start_reading p.lastpos)
          (Shows-start default p.lastpos)))
  | inr later ↦ rw later (Shows-start default p.lastpos)
]

lastpos-first_reading :
    (default : Bytes) (e : Surroundings) (p : Plan) (addrs : List ℕ)
    → (first_reading default e p addrs).lastpos ≡ first_position e p
unfolding initial_read
lastpos-first_reading default e p addrs = elim (Bool-cases (p.lastpos == 0)) [
  | inl initial ↦ rw initial
  | inr later ↦ rw later
]

-- The packets of a request with t=0: a read of each address that has no value.
abbrev pub requests : Plan → List (ℕ × Bytes) → List ℕ → List (ℕ × Bytes)
requests p values addrs = if p.from_bus then read_requests (keys values) addrs else []

read_requests-contains :
    (written known addrs : List ℕ)
    → ((a : ℕ) → contains a written ≡ contains a known)
    → read_requests written addrs ≡ read_requests known addrs
unfolding read_requests
read_requests-contains written known [] h = refl
read_requests-contains written known (a ∷ addrs) h =
    rw (h a, read_requests-contains written known addrs h)

-- The answer from what the poll leaves.
answered :
    (fuel : ℕ) (default : Bytes) (e : Surroundings) (p : Plan) (addrs : List ℕ)
    (values : List (ℕ × Bytes)) (r : Reading)
    → poll fuel default e p addrs (first_reading default e p addrs) ≡ some r
    → Shows default values r
    → read_values fuel default e p addrs
      ≡ some (record {
        result = record { http_status = 200; body = read_text default values r.lastpos };
        sent = requests p (first_values e p addrs) addrs;
      })
unfolding read_values
answered fuel default e p addrs values r ended s =
    let first = first_reading-Shows default e p addrs in
    let same =
      read_requests-contains (first_reading default e p addrs).already_written
        (keys (first_values e p addrs)) addrs first.written in
    rw (ended, same, finish_body-Shows default values r s)

abbrev pub IsPositive : ℤ → Type 0
IsPositive (pos n) = 0 < n
IsPositive (negsuc _) = ⊥

no_poll :
    (fuel : ℕ) (default : Bytes) (e : Surroundings) (p : Plan) (addrs : List ℕ) (r : Reading)
    → ¬ IsPositive p.timeout_sec
    → poll fuel default e p addrs r ≡ some r
no_poll fuel default e p addrs r h = by_timeout p.timeout_sec refl
  where
    by_timeout : (z : ℤ) → p.timeout_sec ≡ z → poll fuel default e p addrs r ≡ some r
    by_timeout (pos zero) z = rw z
    by_timeout (pos (suc n)) z = absurd (h (subst IsPositive (sym z) (omega arith)))
    by_timeout (negsuc n) z = rw z

poll_skipped :
    (fuel : ℕ) (default : Bytes) (e : Surroundings) (p : Plan) (addrs : List ℕ) (r : Reading)
    → is_empty r.already_written ≡ false
    → poll (suc fuel) default e p addrs r ≡ some r
poll_skipped fuel default e p addrs r h = by_timeout p.timeout_sec refl
  where
    by_timeout : (z : ℤ) → p.timeout_sec ≡ z → poll (suc fuel) default e p addrs r ≡ some r
    by_timeout (pos zero) z = rw z
    by_timeout (pos (suc n)) z =
        rw z (written_ends default e (suc n) p.max_age_sec addrs fuel 0 r h)
    by_timeout (negsuc n) z = rw z

-- When the initial read finds a value, or no time is left to poll, the answer has all the values that
-- it finds and the position behind it, whatever comes later.
pub read_values-cached :
    (fuel : ℕ) (default : Bytes) (e : Surroundings) (p : Plan) (addrs : List ℕ)
    → (is_empty (first_values e p addrs) ≡ false) ⊎ (¬ IsPositive p.timeout_sec)
    → read_values (suc fuel) default e p addrs
      ≡ some (record {
        result = record {
          http_status = 200;
          body = read_text default (first_values e p addrs) (first_position e p);
        };
        sent = requests p (first_values e p addrs) addrs;
      })
read_values-cached fuel default e p addrs h =
    let r = first_reading default e p addrs in
    let s = first_reading-Shows default e p addrs in
    let skip : poll (suc fuel) default e p addrs r ≡ some r = elim h [
      | inl some_found ↦ poll_skipped fuel default e p addrs r (
          something_written default e 0 p.max_age_sec addrs (first_values e p addrs) r s some_found)
      | inr no_time ↦ no_poll (suc fuel) default e p addrs r no_time
    ] in
    answered (suc fuel) default e p addrs (first_values e p addrs) r skip s
    ∙ rw (lastpos-first_reading default e p addrs)

-- The answer to a request that polls.
pub record PollAnswer (default : Bytes) (e : Surroundings) (timeout_sec : ℕ) (p : Plan)
    (addrs : List ℕ) (run : Option Reply) : Type 0 where
  pub values : List (ℕ × Bytes)
  pub position : ℕ
  pub polls : Polls default e timeout_sec p.max_age_sec addrs 0 (first_position e p) values position
  pub answer :
      run
      ≡ some (record {
        result = record { http_status = 200; body = read_text default values position };
        sent = requests p [] addrs;
      })

poll_positive :
    (fuel t : ℕ) (default : Bytes) (e : Surroundings) (p : Plan) (addrs : List ℕ) (r : Reading)
    → p.timeout_sec ≡ pos (suc t)
    → poll fuel default e p addrs r ≡ poll_loop fuel default e (suc t) p.max_age_sec addrs 0 r
poll_positive fuel t default e p addrs r h = rw h

empty_list : (values : List (ℕ × Bytes)) → is_empty values ≡ true → values ≡ []
empty_list [] h = refl
empty_list (v ∷ values) h = absurd cc

-- The addresses are in ascending order, as a set gives them, and the order in which an unordered_map gives
-- its members has each of them once. When the initial read finds nothing and there is time to poll, of at most
-- 2147483 seconds, whose milliseconds an int holds, every wait of the first rounds for all the milliseconds
-- that are left returns, the time has run out by round number `left`, and the fuel is more than one round
-- beyond it, a request ends. The answer has the values and the position that the rounds give: those of the
-- first delta with a value for one of the addresses, each delta starting where the one before ended; or none,
-- at the end of the time or of a wait without news.
pub read_values-polls :
    (left fuel t : ℕ) (default : Bytes) (e : Surroundings) (p : Plan) (addrs : List ℕ)
    → ArrangeLaw e.arrange
    → Ascending addrs
    → is_empty (first_values e p addrs) ≡ true
    → p.timeout_sec ≡ pos (suc t)
    → suc t ≤ 2_147_483
    → t < (e.rounds left).elapsed
    → ((m : ℕ) → m < left → waited (suc t) (e.rounds m) ≢ none)
    → left + 1 < fuel
    → PollAnswer default e (suc t) p addrs (read_values fuel default e p addrs)
read_values-polls left fuel t default e p addrs law ordered nothing timed short late returns
      enough =
    let r = first_reading default e p addrs in
    let none_first = empty_list (first_values e p addrs) nothing in
    let s = subst (λ v. Shows default v r) none_first (first_reading-Shows default e p addrs) in
    let o =
      poll_loop-Polls default e (suc t) p.max_age_sec addrs left fuel 0 r short law
        (λ m q. query_delta-Distinct p.max_age_sec addrs (e.rounds m).after q ordered) s
        (subst (λ k. suc t ≤ (e.rounds k).elapsed) (omega arith) late)
        (λ m l. returns m (omega arith)) enough in
    record {
      values = o.values;
      position = o.reading.lastpos;
      polls =
          subst (λ q. Polls default e (suc t) p.max_age_sec addrs 0 q o.values o.reading.lastpos)
            (lastpos-first_reading default e p addrs) o.polls;
      answer =
          answered fuel default e p addrs o.values o.reading
            (poll_positive fuel t default e p addrs r timed ∙ o.ended) o.shows
          ∙ rw none_first;
    }

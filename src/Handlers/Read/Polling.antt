-- ===== src/Handlers/Read/Polling.antt =====
-- The poll loop of src/handlers/read_handler.cpp.
use native.Mathlib.Decide.{dec_lt}
use cometvisu_knxd_fcgi.Prelude.Int.{ℤ, pos}
use cometvisu_knxd_fcgi.Prelude.Overflow.{wrap_int-small}
use cometvisu_knxd_fcgi.State.SharedGroupCache.Waiting.{wait_for_new_data}
use cometvisu_knxd_fcgi.State.GroupCache.{Delta}
use cometvisu_knxd_fcgi.Handlers.Read.{
  Reading, Round, Surroundings, contains, delta_values, query_delta, poll_delta, wait_round,
  after_news, poll_loop, is_empty,
}
use cometvisu_knxd_fcgi.Handlers.Read.Answer.{
  Shows, Distinct, keys, delta_values-Shows, Apart, Shows-moved,
}
use cometvisu_knxd_fcgi.Prelude.{
  ℕ, suc, ◌+◌, ◌≤◌, ◌<◌, ◌≡◌, ◌≢◌, refl, true, false, Option, none, some, List, [], ◌∷◌, arith,
  Bytes, zero, ◌∙◌, inl, inr, leb, is_empty, Bool, Bool-cases, subst, ◌-◌, ◌*◌,
}

-- The order of an `unordered_map`: every member comes once.
pub record ArrangeLaw (arrange : List (ℕ × Bytes) → List (ℕ × Bytes)) : Type 0 where
  pub once : (values : List (ℕ × Bytes)) → Distinct values → Distinct (arrange values)
  pub empty : (values : List (ℕ × Bytes)) → is_empty (arrange values) ≡ is_empty values

-- The wait of a round for all the milliseconds that are left, whatever their number.
abbrev pub waited : ℕ → Round → Option Bool
waited timeout_sec round =
    wait_for_new_data round.before.lock (pos ((timeout_sec - round.elapsed) * 1000))
      (some round.before.data_) round.wakes

wait_round-waited :
    (timeout_sec : ℕ) (round : Round)
    → timeout_sec ≤ 2_147_483
    → wait_round timeout_sec round ≡ waited timeout_sec round
unfolding wait_round
wait_round-waited timeout_sec round h =
    rw (wrap_int-small ((timeout_sec - round.elapsed) * 1000) (omega arith))

no_member :
    (written : List ℕ) → ((a : ℕ) → contains a written ≡ contains a []) → is_empty written ≡ true
unfolding contains
no_member [] h = refl
no_member (b ∷ written) h = let c = h b in ground arith

member_of :
    (a : ℕ) (others written : List ℕ)
    → contains a written ≡ contains a (a ∷ others)
    → is_empty written ≡ false
unfolding contains
member_of a others [] c = ground arith
member_of a others (b ∷ written) c = refl

apart : (more : List (ℕ × Bytes)) → Apart [] more
unfolding contains
apart [] = tt
apart ((a, _) ∷ more) = (refl, apart more)

module _ (default : Bytes) (e : Surroundings) (timeout_sec : ℕ) (max_age_sec : ℤ)
    (addrs : List ℕ) where
  abbrev pub delta_at : ℕ → ℕ → Delta
  delta_at n lastpos = query_delta max_age_sec addrs (e.rounds n).after lastpos

  -- What a poll from a round and a position on delivers, and the position that it ends at: nothing at
  -- the end of the time or of a wait without news; else the first delta that is not empty, each delta
  -- starting from the position of the one before.
  pub data Polls : ℕ → ℕ → List (ℕ × Bytes) → ℕ → Type 0 where
    expires : {n p : ℕ} → timeout_sec ≤ (e.rounds n).elapsed → Polls n p [] p
    quiet :
        {n p : ℕ}
        → (e.rounds n).elapsed < timeout_sec
        → waited timeout_sec (e.rounds n) ≡ some false
        → Polls n p [] p
    unrelated :
        {n p q : ℕ} {values : List (ℕ × Bytes)}
        → (e.rounds n).elapsed < timeout_sec
        → waited timeout_sec (e.rounds n) ≡ some true
        → is_empty (delta_at n p).values ≡ true
        → Polls (suc n) (delta_at n p).position values q
        → Polls n p values q
    fresh :
        {n p : ℕ}
        → (e.rounds n).elapsed < timeout_sec
        → waited timeout_sec (e.rounds n) ≡ some true
        → is_empty (delta_at n p).values ≡ false
        → Polls n p (e.arrange (delta_at n p).values) (delta_at n p).position

  -- The loop ends with the values and the position of the relation.
  pub record Polled (n p : ℕ) (run : Option Reading) : Type 0 where
    pub values : List (ℕ × Bytes)
    pub reading : Reading
    pub polls : Polls n p values reading.lastpos
    pub ended : run ≡ some reading
    pub shows : Shows default values reading

  nothing_written : (r : Reading) → Shows default [] r → is_empty r.already_written ≡ true
  nothing_written r s = no_member r.already_written s.written

  pub something_written :
      (values : List (ℕ × Bytes)) (r : Reading)
      → Shows default values r
      → is_empty values ≡ false
      → is_empty r.already_written ≡ false
  something_written [] r s h = absurd cc
  something_written ((a, v) ∷ values) r s h =
      member_of a (keys values) r.already_written (s.written a)

  pub written_ends :
      (fuel n : ℕ) (r : Reading)
      → is_empty r.already_written ≡ false
      → poll_loop (suc fuel) default e timeout_sec max_age_sec addrs n r ≡ some r
  unfolding poll_loop
  written_ends fuel n r h = rw h

  -- The reading after a delta.
  poll_delta-Shows :
      (d : Delta) (r : Reading)
      → ArrangeLaw e.arrange
      → Distinct d.values
      → Shows default [] r
      → Shows default (e.arrange d.values) (poll_delta default e d r)
  unfolding poll_delta
  poll_delta-Shows d r law distinct s =
      Shows-moved default (e.arrange d.values) d.position
        (delta_values default (e.arrange d.values) r)
        (delta_values-Shows default (e.arrange d.values) [] r s (apart (e.arrange d.values))
          (law.once d.values distinct))

  -- A round in which the time has not run out.
  round_of :
      (fuel n : ℕ) (r : Reading)
      → timeout_sec ≤ 2_147_483
      → Shows default [] r
      → (e.rounds n).elapsed < timeout_sec
      → poll_loop (suc fuel) default e timeout_sec max_age_sec addrs n r
        ≡ after_news
            (poll_loop fuel default e timeout_sec max_age_sec addrs (suc n))
            (λ r'. poll_delta default e (delta_at n r'.lastpos) r')
            r
            (waited timeout_sec (e.rounds n))
  unfolding poll_loop
  round_of fuel n r short s early =
      let nothing = nothing_written r s in
      let t : leb timeout_sec (e.rounds n).elapsed ≡ false = ground arith in
      rw (nothing, t, wait_round-waited timeout_sec (e.rounds n) short)

  expired :
      (fuel n : ℕ) (r : Reading)
      → Shows default [] r
      → timeout_sec ≤ (e.rounds n).elapsed
      → Polled n r.lastpos (poll_loop (suc fuel) default e timeout_sec max_age_sec addrs n r)
  unfolding poll_loop
  expired fuel n r s late =
      let nothing = nothing_written r s in
      let t : leb timeout_sec (e.rounds n).elapsed ≡ true = ground arith in
      record { values = []; reading = r; polls = expires late; ended = rw (nothing, t); shows = s }

  -- The loop goes on behind a delta without values.
  goes_on :
      (fuel n : ℕ) (r : Reading)
      → (e.rounds n).elapsed < timeout_sec
      → waited timeout_sec (e.rounds n) ≡ some true
      → is_empty (delta_at n r.lastpos).values ≡ true
      → (run : Option Reading) → Polled (suc n) (delta_at n r.lastpos).position run
      → Polled n r.lastpos run
  goes_on fuel n r early news none_new run o = record {
    values = o.values;
    reading = o.reading;
    polls = unrelated early news none_new o.polls;
    ended = o.ended;
    shows = o.shows;
  }

  delivers :
      (fuel n : ℕ) (r : Reading)
      → ArrangeLaw e.arrange
      → Distinct (delta_at n r.lastpos).values
      → Shows default [] r
      → (e.rounds n).elapsed < timeout_sec
      → waited timeout_sec (e.rounds n) ≡ some true
      → is_empty (delta_at n r.lastpos).values ≡ false
      → Polled n r.lastpos (
          poll_loop
            (suc fuel)
            default
            e
            timeout_sec
            max_age_sec
            addrs
            (suc n)
            (poll_delta default e (delta_at n r.lastpos) r))
  unfolding poll_delta
  delivers fuel n r law distinct s early news some_new =
      let d = delta_at n r.lastpos in
      let shown = poll_delta-Shows d r law distinct s in
      record {
        values = e.arrange d.values;
        reading = poll_delta default e d r;
        polls = fresh early news some_new;
        ended = written_ends fuel (suc n) (poll_delta default e d r) (
            something_written (e.arrange d.values) (poll_delta default e d r) shown
              (law.empty d.values ∙ some_new));
        shows = shown;
      }

  along : {n p : ℕ} {run run' : Option Reading} → run' ≡ run → Polled n p run → Polled n p run'
  along path o = record {
    values = o.values;
    reading = o.reading;
    polls = o.polls;
    ended = path ∙ o.ended;
    shows = o.shows;
  }

  -- A delta without values leaves nothing written.
  poll_delta-nothing :
      (d : Delta) (r : Reading)
      → ArrangeLaw e.arrange
      → is_empty d.values ≡ true
      → Shows default [] r
      → Shows default [] (poll_delta default e d r)
  unfolding poll_delta delta_values
  poll_delta-nothing d r law none_new s =
      none_arranged (e.arrange d.values) (law.empty d.values ∙ none_new)
    where
      none_arranged :
          (values : List (ℕ × Bytes))
          → is_empty values ≡ true
          → Shows default [] (record (delta_values default values r) { lastpos = d.position })
      none_arranged [] h = Shows-moved default [] d.position r s
      none_arranged (v ∷ values) h = absurd cc

  round_ends :
      (fuel n : ℕ) (r : Reading) (woken : Option Bool)
      → timeout_sec ≤ 2_147_483
      → ArrangeLaw e.arrange
      → Distinct (delta_at n r.lastpos).values
      → Shows default [] r
      → (e.rounds n).elapsed < timeout_sec
      → waited timeout_sec (e.rounds n) ≡ woken
      → woken ≢ none
      → ((r' : Reading)
          → Shows default [] r'
          → Polled
              (suc n)
              r'.lastpos
              (poll_loop (suc fuel) default e timeout_sec max_age_sec addrs (suc n) r'))
      → Polled n r.lastpos (poll_loop (suc (suc fuel)) default e timeout_sec max_age_sec addrs n r)
  unfolding poll_delta
  round_ends fuel n r none short law distinct s early w returns rest = absurd (returns refl)
  round_ends fuel n r (some false) short law distinct s early w returns rest =
      along (round_of (suc fuel) n r short s early ∙ rw w)
        (record { values = []; reading = r; polls = quiet early w; ended = refl; shows = s })
  round_ends fuel n r (some true) short law distinct s early w returns rest =
      let d = delta_at n r.lastpos in
      let r' = poll_delta default e d r in
      let go = round_of (suc fuel) n r short s early ∙ rw w in
      elim (Bool-cases (is_empty d.values)) [
        | inl none_new ↦
            along go (
              goes_on fuel n r early w none_new _ (rest r' (poll_delta-nothing d r law none_new s)))
        | inr some_new ↦ along go (delivers fuel n r law distinct s early w some_new)
      ]

  pub poll_loop-Polls :
      (left fuel n : ℕ) (r : Reading)
      → timeout_sec ≤ 2_147_483
      → ArrangeLaw e.arrange
      → ((m p : ℕ) → Distinct (delta_at m p).values)
      → Shows default [] r
      → timeout_sec ≤ (e.rounds (n + left)).elapsed
      → ((m : ℕ) → m < n + left → waited timeout_sec (e.rounds m) ≢ none)
      → left + 1 < fuel
      → Polled n r.lastpos (poll_loop fuel default e timeout_sec max_age_sec addrs n r)
  poll_loop-Polls left zero n r short law distinct s late returns enough = absurd (omega arith)
  poll_loop-Polls zero (suc fuel) n r short law distinct s late returns enough =
      expired fuel n r s (subst (λ k. timeout_sec ≤ (e.rounds k).elapsed) (omega arith) late)
  poll_loop-Polls (suc left) (suc zero) n r short law distinct s late returns enough =
      absurd (omega arith)
  poll_loop-Polls (suc left) (suc (suc fuel)) n r short law distinct s late returns enough =
      elim (dec_lt (e.rounds n).elapsed timeout_sec) [
        | no over ↦ expired (suc fuel) n r s (omega arith)
        | yes early ↦
            round_ends fuel n r (waited timeout_sec (e.rounds n)) short law (distinct n r.lastpos) s
              early refl (returns n (omega arith))
              (λ r' s'.
                poll_loop-Polls left (suc fuel) (suc n) r' short law distinct s'
                  (subst (λ k. timeout_sec ≤ (e.rounds k).elapsed) (omega arith) late)
                  (λ m l. returns m (omega arith)) (omega arith))
      ]

-- ===== src/Fcgi/Server/Capacity.antt =====
-- The semaphores of src/fcgi/fcgi_server.cpp, with any number of workers.
use cometvisu_knxd_fcgi.Fcgi.Request.{FcgiRequest}
use cometvisu_knxd_fcgi.Fcgi.Server.Library.{Library}
use cometvisu_knxd_fcgi.Fcgi.Server.Running.{
  FcgiServer, write_response, take_request, answer_request, respond, serve_read,
}
use cometvisu_knxd_fcgi.Fcgi.Server.{
  FcgiResponse, Pool, Tokens, Admission, admitted, refused, release, admit, response_text,
}
use cometvisu_knxd_fcgi.Prelude.{
  ◌≡◌, refl, List, [], ◌∷◌, ◌++◌, sym, ap, ◌∙◌, inl, inr, Bytes, Option-cases,
}
use cometvisu_knxd_fcgi.Fcgi.Server.Holding.{admission_tokens, release_comm, admit-Restored}

-- How far a worker is: its request has its tokens or is refused, or it has a response.
pub data Work : Type 0 where
  taken : FcgiRequest → Admission → Work
  answered : FcgiResponse → Tokens → Work

-- The tokens of a worker.
abbrev pub tokens_of : Work → Tokens
tokens_of (taken req a) = admission_tokens a
tokens_of (answered r t) = t

-- All that lies outside, with the pool, and the workers that have taken a request.
pub record System (W : Type 0) : Type 0 where
  pub world : W
  pub working : List Work

-- The pool when all these workers have given their tokens back.
abbrev pub release_all : List Work → Pool → Pool
release_all [] p = p
release_all (k ∷ ks) p = release_all ks (release (tokens_of k) p)

release_all-release :
    (ks : List Work) (t : Tokens) (p : Pool)
    → release_all ks (release t p) ≡ release t (release_all ks p)
release_all-release [] t p = refl
release_all-release (k ∷ ks) t p =
    ap (release_all ks) (release_comm (tokens_of k) t p)
    ∙ release_all-release ks t (release (tokens_of k) p)

release_all-append :
    (ks ls : List Work) (p : Pool) → release_all (ks ++ ls) p ≡ release_all ls (release_all ks p)
release_all-append [] ls p = refl
release_all-append (k ∷ ks) ls p = release_all-append ks ls (release (tokens_of k) p)

-- A worker that goes on with the same tokens.
release_all-same :
    (before after : List Work) (k l : Work) (p : Pool)
    → tokens_of k ≡ tokens_of l
    → release_all (before ++ k ∷ after) p ≡ release_all (before ++ l ∷ after) p
release_all-same before after k l p same =
    release_all-append before (k ∷ after) p
    ∙ ap (λ (t : Tokens). release_all after (release t (release_all before p))) same
    ∙ sym (release_all-append before (l ∷ after) p)

-- A worker that gives its tokens back.
release_all-ended :
    (before after : List Work) (k : Work) (p : Pool)
    → release_all (before ++ after) (release (tokens_of k) p) ≡ release_all (before ++ k ∷ after) p
release_all-ended before after k p =
    release_all-append before after (release (tokens_of k) p)
    ∙ ap (release_all after) (release_all-release before (tokens_of k) p)
    ∙ sym (release_all-append before (k ∷ after) p)

module _ {W : Type 0} (lib : Library W) (server : FcgiServer) where
  -- A step of a worker in direct socket mode: it takes a request that it has read, or it runs the handler for
  -- it, or it ends the round with the response; or something else happens that leaves the pool as it is.
  pub data Step : System W → System W → Type 0 where
    takes :
        (w : W) (s : List Work) (req : FcgiRequest)
        → Step
            (record { world = w; working = s })
            (record {
              world = (take_request lib req w).1;
              working = taken req (take_request lib req w).0 ∷ s;
            })
    answers :
        (w : W) (before after : List Work) (req : FcgiRequest) (a : Admission)
        → Step
            (record { world = w; working = before ++ taken req a ∷ after })
            (record {
              world = (answer_request lib req (a, w)).1.1;
              working =
                  before
                  ++ answered (answer_request lib req (a, w)).0 (answer_request lib req (a, w)).1.0
                    ∷ after;
            })
    responds :
        (w : W) (before after : List Work) (r : FcgiResponse) (t : Tokens)
        → Step
            (record { world = w; working = before ++ answered r t ∷ after })
            (record { world = respond lib server (r, (t, w)); working = before ++ after })
    elsewhere :
        (w w' : W) (s : List Work)
        → lib.pool w' ≡ lib.pool w
        → Step (record { world = w; working = s }) (record { world = w'; working = s })

  pub data Steps : System W → System W → Type 0 where
    done : {a : System W} → Steps a a
    then_step : (a b c : System W) → Steps a b → Step b c → Steps a c

  -- The semaphores hold what they are given, and no other call changes them.
  pub record PoolLaw : Type 0 where
    pub holds : (p : Pool) (w : W) → lib.pool (lib.with_pool p w) ≡ p
    pub handles : (req : FcgiRequest) (w : W) → lib.pool (lib.handle req w).1 ≡ lib.pool w
    pub puts : (text : Bytes) (w : W) → lib.pool (lib.put_str text w) ≡ lib.pool w
    pub writes : (text : Bytes) (w : W) → lib.pool (lib.fwrite text w) ≡ lib.pool w
    pub finishes : (w : W) → lib.pool (lib.finish_r w) ≡ lib.pool w

  abbrev total : System W → Pool
  total a = release_all a.working (lib.pool a.world)

  module _ (law : PoolLaw) where
    write_response-pool :
        (r : FcgiResponse) (w : W) → lib.pool (write_response lib server r w) ≡ lib.pool w
    unfolding write_response
    write_response-pool r w = elim (Option-cases server.listen_fd) [
      | inl e ↦ rw e (law.writes (response_text r) w)
      | inr (fd, e) ↦ rw e (law.puts (response_text r) w)
    ]

    respond-pool :
        (r : FcgiResponse) (t : Tokens) (w : W)
        → lib.pool (respond lib server (r, (t, w))) ≡ release t (lib.pool w)
    respond-pool r t w =
        law.holds _ _
        ∙ ap (release t) (law.finishes (write_response lib server r w) ∙ write_response-pool r w)

    answer_request-pool :
        (req : FcgiRequest) (a : Admission) (w : W)
        → lib.pool (answer_request lib req (a, w)).1.1 ≡ lib.pool w
    answer_request-pool req (admitted t) w = law.handles req w
    answer_request-pool req (refused r t) w = refl

    answer_request-tokens :
        (req : FcgiRequest) (a : Admission) (w : W)
        → (answer_request lib req (a, w)).1.0 ≡ admission_tokens a
    answer_request-tokens req (admitted t) w = refl
    answer_request-tokens req (refused r t) w = refl

    Step-total : (a b : System W) → Step a b → total b ≡ total a
    Step-total a b (takes w s req) =
        let (admission, p) = admit req (lib.pool w) in
        ap (λ (q : Pool). release_all s (release (admission_tokens admission) q)) (law.holds p w)
        ∙ ap (release_all s) (admit-Restored req (lib.pool w))
    Step-total a b (answers w before after req admission) =
        let (r, (t, w')) = answer_request lib req (admission, w) in
        ap (release_all (before ++ answered r t ∷ after)) (answer_request-pool req admission w)
        ∙ release_all-same before after (answered r t) (taken req admission) (lib.pool w)
            (answer_request-tokens req admission w)
    Step-total a b (responds w before after r t) =
        ap (release_all (before ++ after)) (respond-pool r t w)
        ∙ release_all-ended before after (answered r t) (lib.pool w)
    Step-total a b (elsewhere w w' s same) = ap (release_all s) same

    Steps-total : (a b : System W) → Steps a b → total b ≡ total a
    Steps-total a b done = refl
    Steps-total a b (then_step a' b' c' steps last) =
        Step-total b' c' last ∙ Steps-total a' b' steps

    -- A whole round, behind the reading of the request.
    serve_read-pool :
        (req : FcgiRequest) (w : W) → lib.pool (serve_read lib server (req, w)) ≡ lib.pool w
    serve_read-pool req w =
        let (a, w') = take_request lib req w in
        let (r, (t, w'')) = answer_request lib req (a, w') in
        respond-pool r t w''
        ∙ ap (release t) (answer_request-pool req a w' ∙ law.holds (admit req (lib.pool w)).1 w)
        ∙ ap (λ (u : Tokens). release u (admit req (lib.pool w)).1) (answer_request-tokens req a w')
        ∙ admit-Restored req (lib.pool w)

    -- When the handler and the library leave the semaphores alone, and no worker dies: however the workers take
    -- requests, are refused, run the handler and end their rounds, the pool is at every time what it was at
    -- the start less the tokens of the requests in work. When all of these have given their tokens back,
    -- every token is there, and none is there twice. A round that one worker runs from there to its end
    -- without a step of another, refused or not, leaves the pool as it found it.
    pub Steps-capacity :
        (start : W) (a : System W) (req : FcgiRequest)
        → Steps (record { world = start; working = [] }) a
        → (release_all a.working (lib.pool a.world) ≡ lib.pool start)
          × (lib.pool (serve_read lib server (req, a.world)) ≡ lib.pool a.world)
    Steps-capacity start a req steps =
        (Steps-total (record { world = start; working = [] }) a steps, serve_read-pool req a.world)

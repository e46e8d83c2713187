-- ===== src/Fcgi/Server/Running/Answers.antt =====
-- The loops of src/fcgi/fcgi_server.cpp answer_request each request once.
use cometvisu_knxd_fcgi.Fcgi.Request.{FcgiRequest}
use cometvisu_knxd_fcgi.Fcgi.Server.Library.{Library}
use cometvisu_knxd_fcgi.Fcgi.Server.{
  FcgiResponse, Pool, Tokens, Admission, admitted, refused, admit, response_text, read_request,
  read_content, after_fread, content_length, get_env_or_empty,
}
use cometvisu_knxd_fcgi.Fcgi.Server.Running.{
  FcgiServer, Ending, write_response, take_request, answer_request, respond, serve_direct,
  after_accept_r, direct_loop, returned,
}
use cometvisu_knxd_fcgi.Prelude.{
  ℕ, zero, suc, ◌-◌, ◌≡◌, refl, ◌∙◌, inl, inr, Bool, true, false, Option, none, some, List, [], ◌∷◌,
  Bytes, if◌then◌else◌, length, Option-cases, codes, ◌+◌, ◌*◌, ◌<◌, ap, arith,
}

-- The requests that are still to come, the responses written, and the requests finished.
pub record Counts : Type 0 where
  pub waiting : ℕ
  pub answered : ℕ
  pub finished : ℕ

module _ {W : Type 0} (lib : Library W) (counts : W → Counts) where
  -- Only these calls change the counts; a mode that accepts a request has one less to come.
  pub record RequestLaw : Type 0 where
    pub accepts_r :
        (envp : Option (List Bytes)) (w w' : W)
        → lib.accept_r w ≡ (some envp, w')
        → counts w ≡ (let c = counts w' in record c { waiting = suc c.waiting })
    pub ends_r :
        (w w' : W) → lib.accept_r w ≡ (none, w') → ((counts w).waiting ≡ 0) × (counts w' ≡ counts w)
    pub accepts :
        (getenv : Bytes → Option Bytes) (w w' : W)
        → lib.accept w ≡ (some getenv, w')
        → counts w ≡ (let c = counts w' in record c { waiting = suc c.waiting })
    pub ends :
        (w w' : W) → lib.accept w ≡ (none, w') → ((counts w).waiting ≡ 0) × (counts w' ≡ counts w)
    pub inits : (w : W) → counts (lib.init w).1 ≡ counts w
    pub inits_request : (fd : ℕ) (w : W) → counts (lib.init_request fd w).1 ≡ counts w
    pub reads : (n : ℕ) (w : W) → counts (lib.fread n w).1 ≡ counts w
    pub handles : (req : FcgiRequest) (w : W) → counts (lib.handle req w).1 ≡ counts w
    pub pools : (p : Pool) (w : W) → counts (lib.with_pool p w) ≡ counts w
    pub puts :
        (text : Bytes) (w : W)
        → counts (lib.put_str text w) ≡ (let c = counts w in record c { answered = suc c.answered })
    pub writes :
        (text : Bytes) (w : W)
        → counts (lib.fwrite text w) ≡ (let c = counts w in record c { answered = suc c.answered })
    pub finishes :
        (w : W)
        → counts (lib.finish_r w) ≡ (let c = counts w in record c { finished = suc c.finished })

  module _ (law : RequestLaw) where
    after_fread-counts :
        (next : ℕ → W → Bytes × W) (missing : ℕ) (got : Bytes × W)
        → ((n : ℕ) (w : W) → counts (next n w).1 ≡ counts w)
        → counts (after_fread lib.fread next missing got).1 ≡ counts got.1
    after_fread-counts next missing ([], w) h = refl
    after_fread-counts next missing (b ∷ bytes, w) h = h (missing - length (b ∷ bytes)) w

    pub read_content-counts :
        (rounds missing : ℕ) (w : W) → counts (read_content lib.fread rounds missing w).1 ≡ counts w
    unfolding read_content
    read_content-counts zero missing w = refl
    read_content-counts (suc rounds) zero w = refl
    read_content-counts (suc rounds) (suc missing) w =
        after_fread-counts (read_content lib.fread rounds) (suc missing) (lib.fread (suc missing) w)
          (read_content-counts rounds)
        ∙ law.reads (suc missing) w

    either_counts :
        (b : Bool) (x y : FcgiRequest × W) (w : W)
        → counts x.1 ≡ counts w
        → counts y.1 ≡ counts w
        → counts (if b then x else y).1 ≡ counts w
    either_counts true x y w h k = h
    either_counts false x y w h k = k

    read_request-counts :
        (envp : Option (List Bytes)) (w : W) → counts (read_request lib.fread envp w).1 ≡ counts w
    unfolding read_request
    read_request-counts none w = refl
    read_request-counts (some envp) w =
        either_counts _ _ _ w
          (read_content-counts (content_length (get_env_or_empty envp (codes "CONTENT_LENGTH")))
            (content_length (get_env_or_empty envp (codes "CONTENT_LENGTH"))) w)
          refl

    -- One more response.
    abbrev pub Answered : W → W → Type 0
    Answered w w' = counts w' ≡ (let c = counts w in record c { answered = suc c.answered })

    pub write_response-Answered :
        (server : FcgiServer) (r : FcgiResponse) (w : W)
        → Answered w (write_response lib server r w)
    unfolding write_response
    write_response-Answered server r w = elim (Option-cases server.listen_fd) [
      | inl e ↦ rw e (law.writes (response_text r) w)
      | inr (fd, e) ↦ rw e (law.puts (response_text r) w)
    ]

    -- One more response, to a request that is finished.
    abbrev Completed : Counts → Counts → Type 0
    Completed c c' = c' ≡ record c { answered = suc c.answered; finished = suc c.finished }

    answer_request-counts :
        (req : FcgiRequest) (taken : Admission × W)
        → counts (answer_request lib req taken).1.1 ≡ counts taken.1
    answer_request-counts req (refused r t, w) = refl
    answer_request-counts req (admitted t, w) = law.handles req w

    respond-Completed :
        (server : FcgiServer) (r : FcgiResponse) (t : Tokens) (w : W)
        → Completed (counts w) (counts (respond lib server (r, (t, w))))
    respond-Completed server r t w =
        law.pools _ _
        ∙ law.finishes (write_response lib server r w)
        ∙ ap (λ (c : Counts). let d : Counts = record c { finished = suc c.finished } in d)
            (write_response-Answered server r w)

    serve_direct-Completed :
        (server : FcgiServer) (envp : Option (List Bytes)) (w : W)
        → Completed (counts w) (counts (serve_direct lib server envp w))
    unfolding serve_direct
    serve_direct-Completed server envp w =
        let (req, w') = read_request lib.fread envp w in
        let (r, (t, w'')) = answer_request lib req (take_request lib req w') in
        respond-Completed server r t w''
        ∙ ap
            (λ (c : Counts).
              let d : Counts = record c { answered = suc c.answered; finished = suc c.finished } in
              d)
            (answer_request-counts req (take_request lib req w')
              ∙ law.pools (admit req (lib.pool w')).1 w'
              ∙ read_request-counts envp w)

    -- A loop returns 0 when all requests that were to come were answered, and finished if `done` is 1.
    pub record IsServed (done : ℕ) (ending : Ending W) (w : W) : Type 0 where
      pub after : W
      pub returns : ending ≡ returned 0 after
      pub none_waiting : (counts after).waiting ≡ 0
      pub all_answered : (counts after).answered ≡ (counts w).answered + (counts w).waiting
      pub all_finished : (counts after).finished ≡ (counts w).finished + done * (counts w).waiting

    after_accept_r-IsServed :
        (server : FcgiServer) (next : W → Ending W) (w : W)
        (accepted : Option (Option (List Bytes)) × W)
        → lib.accept_r w ≡ accepted
        → ((v : W) → (counts v).waiting < (counts w).waiting → IsServed 1 (next v) v)
        → IsServed 1 (after_accept_r lib server next accepted) w
    after_accept_r-IsServed server next w (none, w') e h =
        let (empty, same) = law.ends_r w w' e in
        let waiting = ap (λ (c : Counts). c.waiting) same in
        let answered = ap (λ (c : Counts). c.answered) same in
        let finished = ap (λ (c : Counts). c.finished) same in
        record {
          after = w';
          returns = refl;
          none_waiting = omega arith;
          all_answered = omega arith;
          all_finished = omega arith;
        }
    after_accept_r-IsServed server next w (some envp, w') e h =
        let v = serve_direct lib server envp w' in
        let one = law.accepts_r envp w w' e in
        let completed = serve_direct-Completed server envp w' in
        let waiting = ap (λ (c : Counts). c.waiting) one in
        let answered = ap (λ (c : Counts). c.answered) one in
        let finished = ap (λ (c : Counts). c.finished) one in
        let waiting' = ap (λ (c : Counts). c.waiting) completed in
        let answered' = ap (λ (c : Counts). c.answered) completed in
        let finished' = ap (λ (c : Counts). c.finished) completed in
        let later = h v (omega arith) in
        let f1 = later.none_waiting in
        let f2 = later.all_answered in
        let f3 = later.all_finished in
        record {
          after = later.after;
          returns = later.returns;
          none_waiting = f1;
          all_answered = omega arith;
          all_finished = omega arith;
        }

    pub direct_loop-IsServed :
        (fuel : ℕ) (server : FcgiServer) (w : W)
        → (counts w).waiting < fuel
        → IsServed 1 (direct_loop lib fuel server w) w
    unfolding direct_loop
    direct_loop-IsServed zero server w h = ground arith
    direct_loop-IsServed (suc fuel) server w h =
        after_accept_r-IsServed server (direct_loop lib fuel server) w (lib.accept_r w) refl
          (λ v less. direct_loop-IsServed fuel server v (omega arith))

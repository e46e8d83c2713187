-- ===== src/Tests/Serving.antt =====
-- The theorems on `FcgiServer` of src/fcgi/fcgi_server.cpp with a small library.
use cometvisu_knxd_fcgi.Fcgi.Server.{Pool, get_env, env_value, read_request, json_response}
use cometvisu_knxd_fcgi.Fcgi.Server.Library.{Library}
use cometvisu_knxd_fcgi.Fcgi.Server.Running.{FcgiServer, read_environ, is_listening, shutdown, run}
use cometvisu_knxd_fcgi.Fcgi.Server.Running.Equivalence.{read_environ-get_env}
use cometvisu_knxd_fcgi.Fcgi.Server.Running.Answers.{Counts, RequestLaw, IsServed}
use cometvisu_knxd_fcgi.Fcgi.Server.Running.Modes.{IsProper, finishing, run-IsServed}
use cometvisu_knxd_fcgi.Fcgi.Server.Running.Closing.{DescriptorLaw, shutdown-is_open}
use cometvisu_knxd_fcgi.Prelude.{
  ℕ, zero, suc, ◌≡◌, ◌≢◌, refl, sym, ap, Bool, true, false, Option, none, some, List, [], ◌∷◌,
  arith, Bytes, ◌==◌, if◌then◌else◌, codes, subst, is_fd,
}

-- The counts, the bodies to come, the pool, and whether the listen socket 3 and the socket 4 are open.
record Web : Type 0 where
  counts : Counts
  input : Bytes
  pool : Pool
  listening : Bool
  waking : Bool

abbrev variables : List Bytes
variables =
    codes "REQUEST_METHOD=POST" ∷ codes "CONTENT_LENGTH=3" ∷ codes "REQUEST_URI=/cgi-bin/w" ∷ []

-- One of the requests that are waiting.
abbrev next_request : {A : Type 0} → A → ℕ → Web → Option A × Web
next_request a zero w = (none, w)
next_request a (suc n) w = (some a, record w { counts = record w.counts { waiting = n } })

abbrev front : ℕ → Bytes → Web → Bytes × Web
front zero s w = ([], w)
front (suc n) [] w = ([], w)
front (suc n) (b ∷ s) w = (b ∷ [], record w { input = s })

abbrev new_socket : Bool → Web → Option ℕ × Web
new_socket true w = (none, w)
new_socket false w = (some 4, record w { waking = true })

abbrev close_one : ℕ → Web → Web
close_one fd w = record w {
  listening = if fd == 3 then false else w.listening;
  waking = if fd == 4 then false else w.waking;
}

abbrev answered_more : Web → Web
answered_more w = record w { counts = record w.counts { answered = suc w.counts.answered } }

abbrev web : Library Web
web = record {
  open_socket = λ path backlog w. (none, w);
  close = close_one;
  init = λ w. (true, w);
  init_request = λ fd w. (true, w);
  accept_r = λ w. next_request (some variables) w.counts.waiting w;
  finish_r = λ w. record w { counts = record w.counts { finished = suc w.counts.finished } };
  accept = λ w. next_request (get_env variables) w.counts.waiting w;
  fread = λ n w. front n w.input w;
  put_str = λ text w. answered_more w;
  fwrite = λ text w. answered_more w;
  handle = λ req w. (some (json_response 200 req.content), w);
  pool = λ w. w.pool;
  with_pool = λ p w. record w { pool = p };
  shutdown_socket = λ fd w. w;
  getsockname = λ fd w. (true, w);
  socket = λ w. new_socket w.waking w;
  connect = λ fd w. (true, w);
}

abbrev two_waiting : Web
two_waiting = record {
  counts = record { waiting = 2; answered = 0; finished = 0 };
  input = codes "a=1b=2";
  pool = record { concurrency = some 1; load_shed = none };
  listening = true;
  waking = false;
}

abbrev direct : FcgiServer
direct = record { listen_fd = some 3; has_handler = true }

has_length : get_env variables (codes "CONTENT_LENGTH") ≢ none
unfolding get_env env_value
has_length e = absurd cc

read_environ-get_env_example :
    read_environ web (get_env variables) two_waiting
    ≡ some (read_request web.fread (some variables) two_waiting)
read_environ-get_env_example = read_environ-get_env web variables two_waiting (λ m. has_length)

next_request-some :
    {A : Type 0} (a b : A) (n : ℕ) (w w' : Web)
    → next_request a n w ≡ (some b, w')
    → record w.counts { waiting = n } ≡ (let c = w'.counts in record c { waiting = suc c.waiting })
next_request-some a b zero w w' e = absurd cc
next_request-some {A} a b (suc n) w w' e =
    ap
      (λ (r : Option A × Web).
        let c : Counts = record r.1.counts { waiting = suc r.1.counts.waiting } in c)
      e

next_request-none :
    {A : Type 0} (a : A) (n : ℕ) (w w' : Web)
    → next_request a n w ≡ (none, w')
    → (n ≡ 0) × (w'.counts ≡ w.counts)
next_request-none {A} a zero w w' e = (refl, ap (λ (r : Option A × Web). r.1.counts) (sym e))
next_request-none a (suc n) w w' e = absurd cc

next_request-same :
    {A : Type 0} (a b : A) (n : ℕ) (w w' : Web) → next_request a n w ≡ (some b, w') → b ≡ a
next_request-same a b zero w w' e = absurd cc
next_request-same {A} a b (suc n) w w' e =
    ap (λ (r : Option A × Web). let v : A = elim r.0 [ none ↦ a | some c ↦ c ] in v) (sym e)

front-counts : (n : ℕ) (s : Bytes) (w : Web) → (front n s w).1.counts ≡ w.counts
front-counts zero s w = refl
front-counts (suc n) [] w = refl
front-counts (suc n) (b ∷ s) w = refl

web-RequestLaw : RequestLaw web (λ w. w.counts)
web-RequestLaw = record {
  accepts_r = λ envp w w' e. next_request-some (some variables) envp w.counts.waiting w w' e;
  ends_r = λ w w' e. next_request-none (some variables) w.counts.waiting w w' e;
  accepts = λ env w w' e. next_request-some (get_env variables) env w.counts.waiting w w' e;
  ends = λ w w' e. next_request-none (get_env variables) w.counts.waiting w w' e;
  inits = λ w. refl;
  inits_request = λ fd w. refl;
  reads = λ n w. front-counts n w.input w;
  handles = λ req w. refl;
  pools = λ p w. refl;
  puts = λ text w. refl;
  writes = λ text w. refl;
  finishes = λ w. refl;
}

variables-IsProper : IsProper (get_env variables)
unfolding IsProper
variables-IsProper h = has_length

web-IsProper :
    (env : Bytes → Option Bytes) (w w' : Web) → web.accept w ≡ (some env, w') → IsProper env
web-IsProper env w w' e =
    subst IsProper (sym (next_request-same (get_env variables) env w.counts.waiting w w' e))
      variables-IsProper

run-IsServed_example :
    IsServed web
      (λ w. w.counts)
      web-RequestLaw
      (finishing (some 3))
      (run web 3 direct two_waiting)
      two_waiting
run-IsServed_example =
    run-IsServed web (λ w. w.counts) web-RequestLaw web-IsProper 3 direct two_waiting refl
      (omega arith) (λ w. refl) (λ fd w. refl)

-- Descriptors.
abbrev is_open : ℕ → Web → Bool
is_open n w = if n == 3 then w.listening else if n == 4 then w.waking else false

opened_new :
    (waking : Bool) (fd : ℕ) (w w' : Web)
    → w.waking ≡ waking
    → new_socket waking w ≡ (some fd, w')
    → (is_open fd w ≡ false) × ((n : ℕ) → is_open n w' ≡ (if n == fd then true else is_open n w))
opened_new true fd w w' h e = absurd cc
opened_new false fd w w' h e =
    let descriptor : 4 ≡ fd =
      ap (λ (r : Option ℕ × Web). let k : ℕ = elim r.0 [ none ↦ 4 | some k ↦ k ] in k) e in
    let waking : true ≡ w'.waking = ap (λ (r : Option ℕ × Web). r.1.waking) e in
    let listening : w.listening ≡ w'.listening = ap (λ (r : Option ℕ × Web). r.1.listening) e in
    (ground arith, λ n. ground arith)

opened_none :
    (waking : Bool) (n : ℕ) (w w' : Web)
    → new_socket waking w ≡ (none, w')
    → is_open n w' ≡ is_open n w
opened_none true n w w' e = ap (λ (r : Option ℕ × Web). is_open n r.1) (sym e)
opened_none false n w w' e = absurd cc

web-DescriptorLaw : DescriptorLaw web is_open
web-DescriptorLaw = record {
  opens = λ path backlog fd w w' e. absurd cc;
  sockets = λ fd w w' e. opened_new w.waking fd w w' refl e;
  no_sockets = λ n w w' e. opened_none w.waking n w w' e;
  closes = λ fd n w. ground arith;
  connects = λ fd n w. refl;
  names = λ fd n w. refl;
  shuts = λ fd n w. refl;
}

shutdown-is_open_example :
    (is_listening web (shutdown web direct two_waiting).0 ≡ false)
    × ((n : ℕ)
        → is_open n (shutdown web direct two_waiting).1
          ≡ (if is_fd n (some 3) then false else is_open n two_waiting))
shutdown-is_open_example = shutdown-is_open web is_open web-DescriptorLaw direct two_waiting

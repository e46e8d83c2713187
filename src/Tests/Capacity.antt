-- ===== src/Tests/Capacity.antt =====
-- The theorem on the semaphores of src/fcgi/fcgi_server.cpp for a read that the load shedding refuses.
use cometvisu_knxd_fcgi.Fcgi.Request.{FcgiRequest, path}
use cometvisu_knxd_fcgi.Fcgi.Server.{Pool, Tokens, admit, refused, try_wait, shed_response}
use cometvisu_knxd_fcgi.Fcgi.Server.Library.{Library}
use cometvisu_knxd_fcgi.Fcgi.Server.Running.{FcgiServer, serve_read}
use cometvisu_knxd_fcgi.Fcgi.Server.Capacity.{
  System, takes, answers, Steps, done, then_step, PoolLaw, release_all, answered, Steps-capacity,
  taken,
}
use cometvisu_knxd_fcgi.Prelude.{◌≡◌, refl, true, false, none, some, [], ◌∷◌, codes}

abbrev read_of : FcgiRequest
read_of = record {
  request_method = codes "GET";
  request_uri = [];
  query_string = codes "a=1/2/3";
  content_type = [];
  content = [];
  script_name = [];
  path_info = codes "/r";
  server_protocol = [];
}

-- A library without requests.
abbrev idle : Library Pool
idle = record {
  open_socket = λ path backlog p. (none, p);
  close = λ fd p. p;
  init = λ p. (true, p);
  init_request = λ fd p. (true, p);
  accept_r = λ p. (none, p);
  finish_r = λ p. p;
  accept = λ p. (none, p);
  fread = λ n p. ([], p);
  put_str = λ text p. p;
  fwrite = λ text p. p;
  handle = λ req p. (none, p);
  pool = λ p. p;
  with_pool = λ q p. q;
  shutdown_socket = λ fd p. p;
  getsockname = λ fd p. (true, p);
  socket = λ p. (none, p);
  connect = λ fd p. (true, p);
}

idle-PoolLaw : PoolLaw idle (record { listen_fd = some 3; has_handler = true })
idle-PoolLaw = record {
  holds = λ p w. refl;
  handles = λ req w. refl;
  puts = λ text w. refl;
  writes = λ text w. refl;
  finishes = λ w. refl;
}

abbrev direct : FcgiServer
direct = record { listen_fd = some 3; has_handler = true }

-- All workers but one may read at a time, and that place is taken.
abbrev before : Pool
before = record { concurrency = some 2; load_shed = some 0 }

abbrev after : Pool
after = record { concurrency = some 1; load_shed = some 0 }

abbrev token : Tokens
token = record { concurrency = true; load_shed = false }

read_taken : admit read_of before ≡ (refused shed_response token, after)
unfolding admit path try_wait
read_taken = refl

abbrev start : System Pool
start = record { world = before; working = [] }

abbrev shed : System Pool
shed = record { world = after; working = answered shed_response token ∷ [] }

steps : Steps idle direct start shed
unfolding admit path try_wait
steps =
    let refusing : System Pool = record {
      world = after;
      working = taken read_of (refused shed_response token) ∷ [];
    } in
    then_step start refusing shed (then_step start start refusing done (takes before [] read_of))
      (answers after [] [] read_of (refused shed_response token))

Steps-capacity_example :
    (release_all (answered shed_response token ∷ []) after ≡ before)
    × (serve_read idle direct (read_of, after) ≡ after)
Steps-capacity_example = Steps-capacity idle direct idle-PoolLaw before shed read_of steps

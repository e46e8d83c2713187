-- ===== src/Tests/Connect.antt =====
-- The theorem on the descriptors of src/knxd/knxd_client.cpp in a world with two of them.
use cometvisu_knxd_fcgi.Knxd.Client.Os.{Os, WriteCall, ReadCall, ConnectCall, PollCall}
use cometvisu_knxd_fcgi.Knxd.Client.Connection.{Link, new_client, connect}
use cometvisu_knxd_fcgi.Knxd.Client.Connection.State.{
  Grown, Same, DescriptorLaw, Outcome, connect-Connects,
}
use cometvisu_knxd_fcgi.Prelude.{
  ℕ, ◌≡◌, Bool, true, false, Option, none, some, arith, codes, ◌==◌, if◌then◌else◌, ap, sym, refl,
}

-- Whether the descriptors 2 and 3 are open.
record World : Type 0 where
  second : Bool
  third : Bool

abbrev is_open : ℕ → World → Bool
is_open n w = if n == 2 then w.second else if n == 3 then w.third else false

abbrev close_one : ℕ → World → World
close_one fd w = record {
  second = if fd == 2 then false else w.second;
  third = if fd == 3 then false else w.third;
}

-- 3 is returned where it is not open.
abbrev new_socket : Bool → World → Option ℕ × World
new_socket true w = (none, w)
new_socket false w = (some 3, record w { third = true })

abbrev refusing : Os World
refusing = record {
  socket = λ w. new_socket w.third w;
  connect = λ fd path w. (ConnectCall.refused, w);
  socket_error = λ fd w. (false, w);
  has_flags = λ fd w. true;
  set_nonblock = λ fd enable w. w;
  close = close_one;
  write = λ fd bytes w. (WriteCall.failed, w);
  read = λ fd n w. (ReadCall.end_of_file, w);
  poll = λ fd event timeout w. (PollCall.timed_out, w);
  clock = λ w. (0, w);
  sleep = λ n w. w;
}

opened_new :
    (third : Bool) (fd : ℕ) (w w' : World)
    → w.third ≡ third
    → new_socket third w ≡ (some fd, w')
    → Grown refusing 108 is_open fd w w'
opened_new true fd w w' h e = absurd cc
opened_new false fd w w' h e =
    let descriptor : 3 ≡ fd =
      ap (λ (r : Option ℕ × World). let k : ℕ = elim r.0 [ none ↦ 3 | some k ↦ k ] in k) e in
    let third : true ≡ w'.third = ap (λ (r : Option ℕ × World). r.1.third) e in
    let second : w.second ≡ w'.second = ap (λ (r : Option ℕ × World). r.1.second) e in
    (ground arith, λ n. ground arith)

opened_none :
    (third : Bool) (w w' : World) → new_socket third w ≡ (none, w') → Same refusing 108 is_open w' w
opened_none true w w' e n = ap (λ (r : Option ℕ × World). is_open n r.1) (sym e)
opened_none false w w' e n = absurd cc

refusing-DescriptorLaw : DescriptorLaw refusing 108 is_open
refusing-DescriptorLaw = record {
  sockets = λ fd w w' e. opened_new w.third fd w w' refl e;
  no_sockets = λ w w' e. opened_none w.third w w' e;
  closes = λ fd n w. ground arith;
  connects = λ fd path w n. refl;
  polls = λ fd event timeout w n. refl;
  asks = λ fd w n. refl;
  sets = λ fd enable w n. refl;
}

-- A client that still holds 2.
abbrev holding : Link World
holding = record {
  client = record new_client { fd = some 2 };
  world = record { second = true; third = false };
}

connect-Connects_example :
    Outcome refusing 108 is_open holding (connect refusing 108 (codes "/run/knx") holding)
connect-Connects_example =
    connect-Connects refusing 108 is_open refusing-DescriptorLaw (codes "/run/knx") holding
      (omega arith)

-- ===== src/Tests/Reader.antt =====
-- The theorems on `run_cache_reader` of src/knxd/cache_reader.cpp, with a client that cannot connect. The
-- state is the time in milliseconds.
use cometvisu_knxd_fcgi.Prelude.Int.{pos}
use cometvisu_knxd_fcgi.Knxd.Client.Connection.{WaitResult}
use cometvisu_knxd_fcgi.Knxd.Client.Interface.{KnxdClientInterface}
use cometvisu_knxd_fcgi.State.SharedGroupCache.{LockResult}
use cometvisu_knxd_fcgi.Knxd.CacheReader.Running.{
  CacheReaderOptions, SystemCalls, Reader, initial_backoff, max_backoff, reader_failed,
  reader_round,
}
use cometvisu_knxd_fcgi.Knxd.CacheReader.Running.Backoff.{Bounded, reader_round-Bounded}
use cometvisu_knxd_fcgi.Knxd.CacheReader.Running.Rest.{RestLaw, whole, Rested, reader_failed-Rested}
use cometvisu_knxd_fcgi.Prelude.{ℕ, ◌+◌, ◌≡◌, refl, false, none, some, arith, codes, ◌^◌, ◌<◌}

abbrev absent : KnxdClientInterface ℕ
absent = record {
  connect = λ path k. (false, k);
  disconnect = λ k. k;
  reconnect = λ k. some (false, k);
  is_connected = λ k. false;
  open_group_socket = λ write_only k. some (false, k);
  send_group_packet = λ addr apdu k. some (false, k);
  poll_group_telegram = λ k. some (none, k);
  get_fd = λ k. none;
  get_telegram_count = λ k. 0;
  set_nonblocking = λ enable k. k;
  wait_for_activity = λ timeout k. (WaitResult.error, k);
}

abbrev around : SystemCalls ℕ
around = record {
  should_stop = λ k. (false, k);
  nanosleep = λ n k. k + n;
  now = λ k. (k, k);
  stamp = λ k. ((k, LockResult.acquired), k);
}

abbrev options : CacheReaderOptions
options = record {
  socket_path = codes "/run/knx";
  wait_timeout_ms = pos 1000;
  reconnect_backoff_ms = pos 500;
  max_reconnect_backoff_ms = pos 30000;
  sleep_slice_ms = pos 400;
}

abbrev reader : Reader ℕ
reader = record {
  knxd = 3;
  cache = none;
  backoff_ms = pos 500;
  connected = false;
  logged_failure = false;
  last_log = 0;
}

reader-Bounded : Bounded options reader
unfolding initial_backoff max_backoff
reader-Bounded = record {
  delay = 500;
  is_delay = refl;
  low = omega arith;
  high = omega arith;
  lasts = omega arith;
}

round_of_reader :
    reader_round absent around options 3 reader ≡ some (reader_failed absent around options reader)
unfolding reader_round
round_of_reader = refl

small_delay : max_backoff options < 2 ^ 30
unfolding initial_backoff max_backoff
small_delay = omega arith

reader_round-Bounded_example : Bounded options (reader_failed absent around options reader)
reader_round-Bounded_example =
    reader_round-Bounded absent around options small_delay 3 reader
      (reader_failed absent around options reader) reader-Bounded round_of_reader

around-RestLaw : RestLaw absent around options (λ k. k) (λ k. 0)
around-RestLaw = record {
  sleeps = λ n k. whole (omega arith) refl;
  tests = λ k. (omega arith, refl);
  reads = λ k. (omega arith, refl);
  disconnects = λ k. (omega arith, refl);
}

reader_failed-Rested_example :
    Rested absent around options
      (λ k. k)
      (λ k. 0)
      400
      500
      3
      (reader_failed absent around options reader).knxd
reader_failed-Rested_example =
    reader_failed-Rested absent around options (λ k. k) (λ k. 0) reader 500 around-RestLaw refl

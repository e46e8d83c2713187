-- ===== src/Tests/Server.antt =====
-- The theorems on src/fcgi/fcgi_server.cpp at concrete inputs, and runs of src/knxd/knxd_connector.cpp.
use cometvisu_knxd_fcgi.Knxd.Client.Interface.{KnxdClientInterface}
use cometvisu_knxd_fcgi.Knxd.Client.Connection.{WaitResult}
use cometvisu_knxd_fcgi.Knxd.Connector.{connect_knxd_with_retry, attempts}
use cometvisu_knxd_fcgi.Fcgi.Server.{content_length, get_env_or_empty, read_request}
use cometvisu_knxd_fcgi.Fcgi.Server.Body.{FreadLaw, read_request-content}
use cometvisu_knxd_fcgi.Prelude.{
  ℕ, zero, suc, ◌+◌, ◌≤◌, ◌<◌, ◌≡◌, refl, true, false, ◌||◌, none, some, List, [], ◌∷◌, ◌++◌, arith,
  Bytes, if◌then◌else◌, length, bytes_eq, codes, take,
}

-- A stream that gives one byte at a time.
abbrev one_byte : ℕ → Bytes → Bytes × Bytes
one_byte zero s = ([], s)
one_byte (suc n) [] = ([], [])
one_byte (suc n) (b ∷ s) = (b ∷ [], s)

one_byte-FreadLaw : FreadLaw one_byte (λ s. s)
one_byte-FreadLaw = record { front = in_order; few = few; at_end = at_end }
  where
    in_order : (n : ℕ) (s : Bytes) → (let (bytes, s') = one_byte n s in s ≡ bytes ++ s')
    in_order zero s = refl
    in_order (suc n) [] = refl
    in_order (suc n) (b ∷ s) = refl

    few : (n : ℕ) (s : Bytes) → length (one_byte n s).0 ≤ n
    few zero s = omega arith
    few (suc n) [] = omega arith
    few (suc n) (b ∷ s) = omega arith

    at_end : (n : ℕ) (s : Bytes) → 0 < n → (one_byte n s).0 ≡ [] → s ≡ []
    at_end zero s p h = absurd (omega arith)
    at_end (suc n) [] p h = refl
    at_end (suc n) (b ∷ s) p h = absurd cc

abbrev environment : List Bytes
environment = codes "REQUEST_METHOD=POST" ∷ codes "CONTENT_LENGTH=3" ∷ []

read_request-content_example :
    (let method = get_env_or_empty environment (codes "REQUEST_METHOD") in
      let content = (read_request one_byte (some environment) (codes "a=1&b=2")).0.content in
      (length content ≤ 65536)
      × (content ≡ (
          if bytes_eq method (codes "POST") || bytes_eq method (codes "PUT")
          then take
              (content_length (get_env_or_empty environment (codes "CONTENT_LENGTH")))
              (codes "a=1&b=2")
          else [])))
read_request-content_example =
    read_request-content one_byte (λ s. s) environment (codes "a=1&b=2") one_byte-FreadLaw

-- A client that never connects; the state counts its attempts and the microseconds of the waits.
abbrev absent : KnxdClientInterface (ℕ × ℕ)
absent = record {
  connect = λ path k. let (n, t) = k in (false, (n + 1, t));
  disconnect = λ k. k;
  reconnect = λ k. some (false, k);
  is_connected = λ k. false;
  open_group_socket = λ write_only k. some (false, k);
  send_group_packet = λ addr apdu k. some (false, k);
  poll_group_telegram = λ k. some (none, k);
  get_fd = λ k. none;
  get_telegram_count = λ k. 0;
  set_nonblocking = λ enable k. k;
  wait_for_activity = λ timeout k. (WaitResult.error, k);
}

four_attempts :
    connect_knxd_with_retry absent
      (λ us k. let (n, t) = k in (n, t + us))
      (codes "/run/knx")
      false
      none
      (0, 0)
    ≡ (false, (4, 3_500_000))
unfolding connect_knxd_with_retry attempts
four_attempts = refl

six_attempts :
    connect_knxd_with_retry absent
      (λ us k. let (n, t) = k in (n, t + us))
      (codes "/run/knx")
      true
      none
      (0, 0)
    ≡ (false, (6, 15_500_000))
unfolding connect_knxd_with_retry attempts
six_attempts = refl

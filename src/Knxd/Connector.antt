-- ===== src/Knxd/Connector.antt =====
-- src/knxd/knxd_connector.cpp: attempts to connect with growing waits between them.
use cometvisu_knxd_fcgi.Knxd.Client.Interface.{KnxdClientInterface}
use cometvisu_knxd_fcgi.Prelude.{
  ℕ, ◌*◌, Bool, true, false, Option, none, some, List, [], ◌∷◌, Bytes, if◌then◌else◌, take,
}

-- `default_delays_ms`
abbrev pub default_delays_ms : List ℕ
default_delays_ms = 500 ∷ 1000 ∷ 2000 ∷ 4000 ∷ 8000 ∷ []

module _ {K : Type 0} (client : KnxdClientInterface K) (usleep : ℕ → K → K) where
  -- What follows an attempt, the loop after the next wait being `next`.
  abbrev pub after_try : (K → Bool × K) → ℕ → Bool × K → Bool × K
  after_try next delay (true, k) = (true, k)
  after_try next delay (false, k) = next (usleep (delay * 1000) k)

  -- The loop: one attempt more than there are delays.
  unfoldable pub attempts : Bytes → List ℕ → K → Bool × K
  attempts socket_path [] k = client.connect socket_path k
  attempts socket_path (delay ∷ delays) k =
      after_try (attempts socket_path delays) delay (client.connect socket_path k)

  -- `custom_delays_ms` has as many delays as are needed; `none` is a null pointer.
  unfoldable pub connect_knxd_with_retry : Bytes → Bool → Option (List ℕ) → K → Bool × K
  connect_knxd_with_retry socket_path has_worked_before custom_delays_ms k =
      let delays : List ℕ = elim custom_delays_ms [ none ↦ default_delays_ms | some d ↦ d ] in
      attempts socket_path (take (if has_worked_before then 5 else 3) delays) k

-- ===== src/Handlers/Read/Addresses.antt =====
-- The set of addresses in src/handlers/read_handler.cpp.
use native.Mathlib.Decide.{dec_lt}
use cometvisu_knxd_fcgi.Prelude.Int.{ℤ}
use cometvisu_knxd_fcgi.State.GroupCache.{collect}
use cometvisu_knxd_fcgi.State.SharedGroupCache.{
  get_delta, get_delta_locked, holds_lock, delta_value,
}
use cometvisu_knxd_fcgi.Handlers.Read.{Look, set_insert, contains, eib_addresses, query_delta}
use cometvisu_knxd_fcgi.Knxd.Address.{from_cometvisu, to_eibaddr}
use cometvisu_knxd_fcgi.Handlers.Read.Answer.{Distinct, keys}
use cometvisu_knxd_fcgi.Prelude.{
  ℕ, ◌<◌, ◌≡◌, refl, inl, inr, false, Option, List, [], ◌∷◌, arith, Bytes, All, Option-cases, true,
  ltb, ◌==◌, Bool-cases,
}

abbrev pub Above : ℕ → List ℕ → Type 0
Above a = All λ b. a < b

-- The members of a `std::set`, in their order.
abbrev pub Ascending : List ℕ → Type 0
Ascending [] = Unit {0}
Ascending (a ∷ s) = Above a s × Ascending s

Above-trans : (a b : ℕ) (s : List ℕ) → a < b → Above b s → Above a s
Above-trans a b [] h k = tt
Above-trans a b (c ∷ s) h (k, ks) = (omega arith, Above-trans a b s h ks)

Above-set_insert : (a b : ℕ) (s : List ℕ) → a < b → Above a s → Above a (set_insert b s)
unfolding set_insert
Above-set_insert a b [] h k = (h, tt)
Above-set_insert a b (c ∷ s) h (k, ks) = let rest = Above-set_insert a b s h ks in ground arith

set_insert-Ascending : (a : ℕ) (s : List ℕ) → Ascending s → Ascending (set_insert a s)
unfolding set_insert
set_insert-Ascending a [] h = (tt, tt)
set_insert-Ascending a (b ∷ s) (k, ks) =
    let grown = set_insert-Ascending a s ks in
    elim (dec_lt a b) [
      | yes less ↦
          let t : ltb a b ≡ true = ground arith in rw t ((less, Above-trans a b s less k), (k, ks))
      | no above ↦
          let t : ltb a b ≡ false = ground arith in
          elim (Bool-cases (a == b)) [
            | inl same ↦ rw (t, same) (k, ks)
            | inr other ↦ rw (t, other) (Above-set_insert b a s (ground arith) k, grown)
          ]
    ]

pub eib_addresses-Ascending :
    (default : Bytes) (addresses : List Bytes) (set : List ℕ)
    → Ascending set
    → Ascending (eib_addresses default addresses set)
unfolding eib_addresses
eib_addresses-Ascending default [] set h = h
eib_addresses-Ascending default (s ∷ addresses) set h =
    elim (Option-cases (from_cometvisu default s)) [
      | inl invalid ↦ rw (eib_addresses, invalid) (eib_addresses-Ascending default addresses set h)
      | inr (parsed, valid) ↦
          rw (eib_addresses, valid)
            (eib_addresses-Ascending default addresses (set_insert (to_eibaddr parsed.group) set)
              (set_insert-Ascending (to_eibaddr parsed.group) set h))
    ]

absent :
    (a : ℕ) (f : ℕ → Option Bytes) (s : List ℕ)
    → Above a s
    → contains a (keys (collect f s)) ≡ false
unfolding contains collect
absent a f [] h = refl
absent a f (b ∷ s) (l, h) =
    let rest = absent a f s h in
    elim (Option-cases (f b)) [
      | inl nothing ↦ rw (collect, nothing) rest
      | inr (v, found) ↦ rw (collect, found) (ground arith)
    ]

collect-Distinct : (f : ℕ → Option Bytes) (s : List ℕ) → Ascending s → Distinct (collect f s)
unfolding collect
collect-Distinct f [] h = tt
collect-Distinct f (a ∷ s) (k, ks) = elim (Option-cases (f a)) [
  | inl nothing ↦ rw (collect, nothing) (collect-Distinct f s ks)
  | inr (v, found) ↦ rw (collect, found) (absent a f s k, collect-Distinct f s ks)
]

pub query_delta-Distinct :
    (max_age_sec : ℤ) (addrs : List ℕ) (l : Look) (lastpos : ℕ)
    → Ascending addrs
    → Distinct (query_delta max_age_sec addrs l lastpos).values
unfolding query_delta get_delta get_delta_locked
query_delta-Distinct m addrs l lastpos h = elim (Bool-cases (holds_lock l.lock)) [
  | inl held ↦ rw held (collect-Distinct (delta_value l.time lastpos m l.data_) addrs h)
  | inr failed ↦ rw failed tt
]

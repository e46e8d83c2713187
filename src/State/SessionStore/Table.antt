-- ===== src/State/SessionStore/Table.antt =====
-- The hash map of the sessions of src/state/session_store.cpp: look-up after every change.
use cometvisu_knxd_fcgi.Prelude.Int.{ℤ}
use cometvisu_knxd_fcgi.State.SessionStore.{
  Session, find_session, erase, assign_session, List, Bytes, ℕ, unexpired, expired,
}
use cometvisu_knxd_fcgi.Prelude.{
  List, Bytes, ℕ, ◌∷◌, ◌≡◌, Option, none, some, Bool-cases, if◌then◌else◌, bytes_eq, arith, inl,
  bytes_eq_iff, inr, refl, [],
}

-- No two sessions have the same key.
abbrev pub IsDistinct : List Session → Type 0
IsDistinct [] = Unit
IsDistinct (s ∷ l) = (find_session s.id l ≡ none) × IsDistinct l

pub find_session-erase :
    (key b : Bytes) (l : List Session)
    → find_session b (erase key l) ≡ (if bytes_eq key b then none else find_session b l)
unfolding find_session erase
find_session-erase key b [] = ground arith
find_session-erase key b (s ∷ l) = ground (
  arith,
  find_session-erase key b l,
  bytes_eq_iff s.id key,
  bytes_eq_iff s.id b,
  bytes_eq_iff key b,
)

pub find_session-assign_session :
    (s : Session) (b : Bytes) (l : List Session)
    → find_session b (assign_session s l) ≡ (if bytes_eq s.id b then some s else find_session b l)
unfolding find_session assign_session
find_session-assign_session s b [] = refl
find_session-assign_session s b (t ∷ l) = ground (
  arith,
  find_session-assign_session s b l,
  bytes_eq_iff t.id s.id,
  bytes_eq_iff t.id b,
  bytes_eq_iff s.id b,
)

-- What look-up finds in the sessions that are left after expired ones are removed.
abbrev pub if_unexpired : ℤ → ℕ → Option Session → Option Session
if_unexpired ttl now none = none
if_unexpired ttl now (some s) = if expired ttl now s then none else some s

pub find_session-unexpired :
    (ttl : ℤ) (now : ℕ) (b : Bytes) (l : List Session)
    → IsDistinct l
    → find_session b (unexpired ttl now l) ≡ if_unexpired ttl now (find_session b l)
unfolding find_session unexpired
find_session-unexpired ttl now b [] h = refl
find_session-unexpired ttl now b (s ∷ l) (fresh, h) = elim (Bool-cases (bytes_eq s.id b)) [
  | inl same ↦
      let absent : find_session b l ≡ none =
        rw (let (f, _) = bytes_eq_iff s.id b in f same) at fresh in
      let rest = find_session-unexpired ttl now b l h in ground (arith, absent, rest)
  | inr other ↦ ground (arith, other, find_session-unexpired ttl now b l h)
]

pub erase-IsDistinct : (key : Bytes) (l : List Session) → IsDistinct l → IsDistinct (erase key l)
unfolding erase
erase-IsDistinct key [] h = tt
erase-IsDistinct key (s ∷ l) (fresh, h) = elim (Bool-cases (bytes_eq s.id key)) [
  | inl same ↦ rw same (erase-IsDistinct key l h)
  | inr other ↦ rw other (
    (let e = find_session-erase key s.id l in ground (arith, e, fresh)),
    erase-IsDistinct key l h,
  )
]

pub assign_session-IsDistinct :
    (s : Session) (l : List Session) → IsDistinct l → IsDistinct (assign_session s l)
unfolding assign_session
assign_session-IsDistinct s [] h = (unfold find_session in refl, tt)
assign_session-IsDistinct s (t ∷ l) (fresh, h) = elim (Bool-cases (bytes_eq t.id s.id)) [
  | inl same ↦ rw same ((rw (let (f, _) = bytes_eq_iff t.id s.id in f same) at fresh), h)
  | inr other ↦
      let e = find_session-assign_session s t.id l in
      rw other (
        ground (arith, e, fresh, other, bytes_eq_iff s.id t.id, bytes_eq_iff t.id s.id),
        assign_session-IsDistinct s l h,
      )
]

pub unexpired-IsDistinct :
    (ttl : ℤ) (now : ℕ) (l : List Session) → IsDistinct l → IsDistinct (unexpired ttl now l)
unfolding unexpired
unexpired-IsDistinct ttl now [] h = tt
unexpired-IsDistinct ttl now (s ∷ l) (fresh, h) = elim (Bool-cases (expired ttl now s)) [
  | inl old ↦ rw old (unexpired-IsDistinct ttl now l h)
  | inr young ↦
      rw young
        ((rw (find_session-unexpired ttl now s.id l h, fresh)), unexpired-IsDistinct ttl now l h)
]

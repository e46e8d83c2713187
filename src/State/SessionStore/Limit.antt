-- ===== src/State/SessionStore/Limit.antt =====
-- The limit on the number of sessions of src/state/session_store.cpp.
use cometvisu_knxd_fcgi.Prelude.Int.{ℤ}
use cometvisu_knxd_fcgi.State.SessionStore.{
  Session, find_session, erase, assign_session, unexpired, evict, SessionStore, oldest,
  cleanup_expired, create_session, generate_id,
}
use cometvisu_knxd_fcgi.Prelude.{
  ℕ, ◌+◌, ◌≤◌, ◌<◌, ◌≡◌, refl, ◌⊎◌, inl, inr, some, List, [], ◌∷◌, arith, Bytes, leb, length,
  Bool-cases, bytes_eq, max, Bool, true, false,
}
use cometvisu_knxd_fcgi.State.SessionStore.Table.{
  IsDistinct, erase-IsDistinct, unexpired-IsDistinct, assign_session-IsDistinct,
}
use cometvisu_knxd_fcgi.State.SessionStore.Oldest.{find_session-oldest, oldest-∷_self}

length-erase_le : (key : Bytes) (l : List Session) → length (erase key l) ≤ length l
unfolding erase
length-erase_le key [] = omega arith
length-erase_le key (s ∷ l) = ground (arith, length-erase_le key l)

length-erase :
    (key : Bytes) (l : List Session) (x : Session)
    → find_session key l ≡ some x
    → length (erase key l) < length l
unfolding erase find_session
length-erase key [] x h = cc
length-erase key (s ∷ l) x h = elim (Bool-cases (bytes_eq s.id key)) [
  | inl same ↦ rw same (omega (arith, length-erase_le key l))
  | inr other ↦ rw other (omega (arith, length-erase key l x (rw other at h)))
]

length-assign_session :
    (s : Session) (l : List Session) → length (assign_session s l) ≤ length l + 1
unfolding assign_session
length-assign_session s [] = omega arith
length-assign_session s (t ∷ l) = ground (arith, length-assign_session s l)

length-unexpired : (ttl : ℤ) (now : ℕ) (l : List Session) → length (unexpired ttl now l) ≤ length l
unfolding unexpired
length-unexpired ttl now [] = omega arith
length-unexpired ttl now (s ∷ l) = ground (arith, length-unexpired ttl now l)

length-evict :
    (max : ℕ) (l : List Session)
    → IsDistinct l
    → (length (evict max l) + 1 ≤ length l) ⊎ ((length (evict max l) < max) ⊎ (evict max l ≡ []))
unfolding evict
length-evict max [] d = inr (inr refl)
length-evict max (s ∷ l) d = elim (Bool-cases (leb max (length (s ∷ l)))) [
  | inl full ↦
      let found = find_session-oldest s l d in
      rw (full, oldest-∷_self s l)
        (inl (omega (arith, length-erase (oldest s l).id (s ∷ l) (oldest s l) found)))
  | inr room ↦ rw room (inr (inl (ground arith)))
]

-- The keys are distinct, and the number of sessions stays within the limit, which is at least one.
pub record IsWellFormed (st : SessionStore) : Type 0 where
  pub distinct : IsDistinct st.sessions
  pub few : length st.sessions ≤ max 1 st.max_sessions

cleanup_expired-IsWellFormed :
    (now : ℕ) (st : SessionStore) → IsWellFormed st → IsWellFormed (cleanup_expired now st)
unfolding cleanup_expired
cleanup_expired-IsWellFormed now st w = record {
  distinct = unexpired-IsDistinct st.session_ttl_sec now st.sessions w.distinct;
  few = omega (arith, length-unexpired st.session_ttl_sec now st.sessions, w.few);
}

pub evict-IsDistinct : (max : ℕ) (l : List Session) → IsDistinct l → IsDistinct (evict max l)
unfolding evict
evict-IsDistinct max [] d = tt
evict-IsDistinct max (s ∷ l) d = elim (Bool-cases (leb max (length (s ∷ l)))) [
  | inl full ↦ rw full (erase-IsDistinct (oldest s (s ∷ l)).id (s ∷ l) d)
  | inr room ↦ rw room d
]

length-evict_lt :
    (limit : ℕ) (l : List Session)
    → IsDistinct l
    → length l ≤ max 1 limit
    → length (evict limit l) < max 1 limit
length-evict_lt limit l d h = elim (length-evict limit l d) [
  | inl less ↦ omega (arith, less)
  | inr (inl room) ↦ omega (arith, room)
  | inr (inr none_left) ↦ rw none_left (omega arith)
]

-- Creating a session, anonymous or not, keeps the store well-formed: the keys stay distinct, and there are no
-- more sessions than the limit allows, or one if that is 0.
pub create_session-IsWellFormed :
    (anonymous : Bool) (now created num : ℕ) (st : SessionStore)
    → IsWellFormed st
    → IsWellFormed (let (_, after) = create_session anonymous now created num st in after)
unfolding create_session
create_session-IsWellFormed true now created num st w = w
create_session-IsWellFormed false now created num st w =
    let clean = cleanup_expired-IsWellFormed now st w in
    let c = cleanup_expired now st in
    let kept = evict-IsDistinct c.max_sessions c.sessions clean.distinct in
    let s : Session = record { id = generate_id num; created = created } in
    record {
      distinct = assign_session-IsDistinct s (evict c.max_sessions c.sessions) kept;
      few = omega (
        arith,
        length-assign_session s (evict c.max_sessions c.sessions),
        length-evict_lt c.max_sessions c.sessions clean.distinct clean.few,
      );
    }

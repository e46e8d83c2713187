-- ===== src/State/SessionStore/Lifetime.antt =====
-- Which sessions of src/state/session_store.cpp are valid.
use cometvisu_knxd_fcgi.Prelude.Int.{ℤ}
use cometvisu_knxd_fcgi.State.SessionStore.{
  Session, find_session, assign_session, unexpired, evict, SessionStore, oldest, cleanup_expired,
  create_session, generate_id, expired, is_valid, id_digits, remove,
}
use cometvisu_knxd_fcgi.Prelude.{
  ℕ, ◌≤◌, ◌≡◌, refl, ◌⊎◌, inl, inr, some, List, [], ◌∷◌, arith, Bytes, leb, length, Bool-cases,
  bytes_eq, Bool, true, false, ◌∙◌, not, Option, none, Option-cases, bytes_eq_iff, codes, ap,
  if◌then◌else◌, All, ◌&&◌, subst,
}
use cometvisu_knxd_fcgi.State.SessionStore.Table.{
  IsDistinct, unexpired-IsDistinct, find_session-assign_session, find_session-erase,
  find_session-unexpired, if_unexpired,
}
use cometvisu_knxd_fcgi.State.SessionStore.Oldest.{
  find_session-oldest, oldest-∷_self, no_older, oldest-le_first, oldest-le,
}
use cometvisu_knxd_fcgi.State.SessionStore.Limit.{IsWellFormed}

-- Whether a session is valid at a time.
abbrev valid_at : ℤ → ℕ → Option Session → Bool
valid_at ttl now none = false
valid_at ttl now (some s) = not (expired ttl now s)

abbrev pub answer : Bytes → ℕ → SessionStore → Bool
answer key now st = let (b, _) = is_valid key now st in b

is_valid-valid_at :
    (key : Bytes) (now : ℕ) (st : SessionStore)
    → bytes_eq key (codes "0") ≡ false
    → answer key now st ≡ valid_at st.session_ttl_sec now (find_session key st.sessions)
unfolding is_valid
is_valid-valid_at key now st h = elim (Option-cases (find_session key st.sessions)) [
  | inl absent ↦ rw (answer, is_valid, h, absent)
  | inr (s, found) ↦ elim (Bool-cases (expired st.session_ttl_sec now s)) [
    | inl old ↦ rw (answer, is_valid, h, found, old)
    | inr young ↦ rw (answer, is_valid, h, found, young)
  ]
]

generate_id-ne-anonymous : (num : ℕ) → bytes_eq (generate_id num) (codes "0") ≡ false
unfolding generate_id id_digits
generate_id-ne-anonymous num = ground arith

-- Right after its creation, a session is valid at any time exactly if it has not expired then.
pub create_session-answer :
    (now created num later : ℕ) (st : SessionStore)
    → (let (id, after) = create_session false now created num st in answer id later after)
      ≡ not (expired st.session_ttl_sec later (record { id = generate_id num; created = created }))
unfolding create_session cleanup_expired
create_session-answer now created num later st =
    let c = cleanup_expired now st in
    let s : Session = record { id = generate_id num; created = created } in
    let l = evict c.max_sessions c.sessions in
    let self : bytes_eq s.id s.id ≡ true = let (_, g) = bytes_eq_iff s.id s.id in g refl in
    let found : find_session s.id (assign_session s l) ≡ some s =
      rw (find_session-assign_session s s.id l, self) in
    is_valid-valid_at s.id later (record c { sessions = assign_session s l })
      (generate_id-ne-anonymous num)
    ∙ ap (valid_at st.session_ttl_sec later) found

-- Why a session is gone after another was created: the limit was reached, and no session that had not
-- expired was older.
pub record IsEvicted (now : ℕ) (st : SessionStore) (s : Session) : Type 0 where
  pub full : st.max_sessions ≤ length (cleanup_expired now st).sessions
  pub eldest : All (λ (t : Session). s.created ≤ t.created) (cleanup_expired now st).sessions

find_session-evict :
    (limit : ℕ) (key : Bytes) (s : Session) (l : List Session)
    → IsDistinct l
    → find_session key l ≡ some s
    → (find_session key (evict limit l) ≡ some s)
      ⊎ ((limit ≤ length l) × All (λ (t : Session). s.created ≤ t.created) l)
unfolding evict
find_session-evict limit key s [] d h = inl h
find_session-evict limit key s (t ∷ l) d h = elim (Bool-cases (leb limit (length (t ∷ l)))) [
  | inr room ↦ rw room (inl h)
  | inl full ↦ elim (Bool-cases (bytes_eq (oldest t l).id key)) [
    | inr other ↦
        rw (full, oldest-∷_self t l)
          (inl (rw (find_session-erase (oldest t l).id key (t ∷ l), other) h))
    | inl same ↦
        let e : find_session key (t ∷ l) ≡ some (oldest t l) =
          subst (λ k. find_session k (t ∷ l) ≡ some (oldest t l))
            (let (f, _) = bytes_eq_iff (oldest t l).id key in f same) (find_session-oldest t l d) in
        let is_s : oldest t l ≡ s = cc in
        inr (ground arith, no_older (t ∷ l) is_s (oldest-le_first t l, oldest-le t l))
  ]
]

-- In a well-formed store, a session that has not expired when another is created under a different key
-- stays in the store, unless it is evicted.
pub create_session-keeps :
    (now created num : ℕ) (key : Bytes) (s : Session) (st : SessionStore)
    → IsWellFormed st
    → find_session key st.sessions ≡ some s
    → expired st.session_ttl_sec now s ≡ false
    → bytes_eq (generate_id num) key ≡ false
    → (let (_, after) = create_session false now created num st in
        (find_session key after.sessions ≡ some s) ⊎ IsEvicted now st s)
unfolding create_session cleanup_expired
create_session-keeps now created num key s st w h young other =
    let l = unexpired st.session_ttl_sec now st.sessions in
    let kept : find_session key l ≡ some s = rw (
      find_session-unexpired st.session_ttl_sec now key st.sessions w.distinct,
      h,
      if_unexpired,
      young,
    ) in
    let d = unexpired-IsDistinct st.session_ttl_sec now st.sessions w.distinct in
    let new : Session = record { id = generate_id num; created = created } in
    elim (find_session-evict st.max_sessions key s l d kept) [
      | inl there ↦
          inl (rw (find_session-assign_session new key (evict st.max_sessions l), other) there)
      | inr (full, eldest) ↦ inr (record { full = full; eldest = eldest })
    ]

anonymous-answer :
    (other : Bytes) (now : ℕ) (st : SessionStore)
    → bytes_eq other (codes "0") ≡ true
    → answer other now st ≡ true
unfolding is_valid
anonymous-answer other now st h = rw (answer, is_valid, h)

-- After a session was removed it is not valid, and every other one is what it was. The anonymous
-- session cannot be removed.
pub remove-answer :
    (key other : Bytes) (now : ℕ) (st : SessionStore)
    → answer other now (remove key st) ≡ (
        if not (bytes_eq other (codes "0")) && bytes_eq key other
        then false
        else answer other now st)
unfolding remove
remove-answer key other now st = elim (Bool-cases (bytes_eq other (codes "0"))) [
  | inl anonymous ↦ rw (
    anonymous-answer other now (remove key st) anonymous,
    anonymous-answer other now st anonymous,
    anonymous,
  )
  | inr named ↦
      rw
        (
          is_valid-valid_at other now (remove key st) named,
          is_valid-valid_at other now st named,
          named,
        )
        (elim (Bool-cases (bytes_eq key (codes "0"))) [
          | inl nothing ↦
              let differs : bytes_eq key other ≡ false = elim (Bool-cases (bytes_eq key other)) [
                | inr differs ↦ differs
                | inl same ↦
                    let z : bytes_eq other (codes "0") ≡ true =
                      subst (λ k. bytes_eq k (codes "0") ≡ true)
                        (let (f, _) = bytes_eq_iff key other in f same) nothing in
                    cc
              ] in
              rw (nothing, differs)
          | inr removed ↦
              rw (removed, find_session-erase key other st.sessions)
                (elim (Bool-cases (bytes_eq key other)) [
                  | inl same ↦ rw same
                  | inr other_key ↦ rw other_key
                ])
        ])
]

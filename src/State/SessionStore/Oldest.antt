-- ===== src/State/SessionStore/Oldest.antt =====
-- The eviction of src/state/session_store.cpp removes an oldest session.
use cometvisu_knxd_fcgi.State.SessionStore.{Session, find_session, oldest, List}
use cometvisu_knxd_fcgi.State.SessionStore.Table.{IsDistinct}
use cometvisu_knxd_fcgi.Prelude.{
  List, ◌≤◌, All, ◌≡◌, arith, ◌∷◌, ◌⊎◌, Bool-cases, some, ltb, inl, refl, inr, [], true, false,
  none, Bytes, bytes_eq, bytes_eq_iff, sym, subst,
}

pub oldest-le_first : (s : Session) (l : List Session) → (oldest s l).created ≤ s.created
unfolding oldest
oldest-le_first s [] = omega arith
oldest-le_first s (t ∷ l) = ground (arith, oldest-le_first s l, oldest-le_first t l)

oldest-∷_younger :
    (s t : Session) (l : List Session)
    → ltb t.created s.created ≡ true
    → oldest s (t ∷ l) ≡ oldest t l
unfolding oldest
oldest-∷_younger s t l h = rw h

oldest-∷_other :
    (s t : Session) (l : List Session)
    → ltb t.created s.created ≡ false
    → oldest s (t ∷ l) ≡ oldest s l
unfolding oldest
oldest-∷_other s t l h = rw h

pub no_older :
    {o u : Session} (l : List Session)
    → o ≡ u
    → All (λ (t : Session). o.created ≤ t.created) l
    → All (λ (t : Session). u.created ≤ t.created) l
no_older l = subst (λ (o : Session). All (λ (t : Session). o.created ≤ t.created) l)

-- No session is older than the one that the loop finds.
pub oldest-le :
    (s : Session) (l : List Session) → All (λ (t : Session). (oldest s l).created ≤ t.created) l
oldest-le s [] = tt
oldest-le s (t ∷ l) = elim (Bool-cases (ltb t.created s.created)) [
  | inl younger ↦
      no_older (t ∷ l) (sym (oldest-∷_younger s t l younger)) (oldest-le_first t l, oldest-le t l)
  | inr other ↦
      let first = oldest-le_first s l in
      no_older (t ∷ l) (sym (oldest-∷_other s t l other)) (ground (arith, first), oldest-le s l)
]

find_session-∷ :
    (t : Session) (l : List Session) (key : Bytes) (x : Session)
    → find_session t.id l ≡ none
    → find_session key l ≡ some x
    → find_session key (t ∷ l) ≡ some x
find_session-∷ t l key x fresh found = elim (Bool-cases (bytes_eq t.id key)) [
  | inl same ↦
      let e : find_session key l ≡ none =
        rw (let (f, _) = bytes_eq_iff t.id key in f same) at fresh in
      cc
  | inr other ↦ unfold find_session in rw other found
]

find_session-∷_self : (t : Session) (l : List Session) → find_session t.id (t ∷ l) ≡ some t
unfolding find_session
find_session-∷_self t l =
    let same : bytes_eq t.id t.id ≡ true = let (_, g) = bytes_eq_iff t.id t.id in g refl in rw same

-- The loop finds the first session, or one that the list holds.
find_session-oldest_or :
    (s : Session) (l : List Session)
    → IsDistinct l
    → (oldest s l ≡ s) ⊎ (find_session (oldest s l).id l ≡ some (oldest s l))
find_session-oldest_or s [] d = inl (unfold oldest in refl)
find_session-oldest_or s (t ∷ l) (fresh, d) = elim (Bool-cases (ltb t.created s.created)) [
  | inl younger ↦ rw (oldest-∷_younger s t l younger) (
      inr (elim (find_session-oldest_or t l d) [
        | inl e ↦ rw e (find_session-∷_self t l)
        | inr found ↦ find_session-∷ t l (oldest t l).id (oldest t l) fresh found
      ]))
  | inr other ↦ rw (oldest-∷_other s t l other) (elim (find_session-oldest_or s l d) [
    | inl e ↦ inl e
    | inr found ↦ inr (find_session-∷ t l (oldest s l).id (oldest s l) fresh found)
  ])
]

pub find_session-oldest :
    (s : Session) (l : List Session)
    → IsDistinct (s ∷ l)
    → find_session (oldest s l).id (s ∷ l) ≡ some (oldest s l)
find_session-oldest s l (fresh, d) = elim (find_session-oldest_or s l d) [
  | inl e ↦ rw e (find_session-∷_self s l)
  | inr found ↦ find_session-∷ s l (oldest s l).id (oldest s l) fresh found
]

-- The loop starts with the first session in hand and sees it again.
pub oldest-∷_self : (s : Session) (l : List Session) → oldest s (s ∷ l) ≡ oldest s l
oldest-∷_self s l = oldest-∷_other s s l (ground arith)

-- ===== src/State/GroupCache/History.antt =====
-- The cache of one process against the list of the telegrams pushed to it, newest first.
use mathlib.Core.Option
use cometvisu_knxd_fcgi.Prelude.{
  ℕ, suc, ◌+◌, ◌-◌, ◌/◌, ◌%◌, ◌≤◌, ◌<◌, ◌≡◌, ◌≢◌, refl, Option, none, some, List, [], ◌∷◌, arith,
  Bytes, ltb, ◌==◌, if◌then◌else◌, length, All, Option-cases, inl, inr,
}
use cometvisu_knxd_fcgi.Prelude.Int.{ℤ, pos, negsuc}
use cometvisu_knxd_fcgi.State.Position.{modulus, u32, wrapped_pos, too_old, selects-newer}
use cometvisu_knxd_fcgi.State.GroupCache.{
  Entry, GroupCache, empty, find, assign, push, get, delta_value, collect, get_delta,
}

pub record Telegram : Type 0 where
  pub time : ℕ
  pub addr : ℕ
  pub value : Bytes

abbrev pub cache_of : List Telegram → GroupCache
cache_of [] = empty
cache_of (t ∷ h) = push t.time t.addr t.value (cache_of h)

-- The last telegram for an address, with its number: the first telegram has number 1.
abbrev pub last_push : ℕ → List Telegram → Option (ℕ × Telegram)
last_push addr [] = none
last_push addr (t ∷ h) = if t.addr == addr then some (suc (length h), t) else last_push addr h

abbrev entry_of : ℕ × Telegram → Entry
entry_of (q, t) = record { value = t.value; timestamp = t.time % u32; pushed_at = q % modulus }

pub find-assign :
    (a b : ℕ) (e : Entry) (es : List (ℕ × Entry))
    → find a (assign b e es) ≡ (if b == a then some e else find a es)
unfolding find assign
find-assign a b e [] = refl
find-assign a b e ((c, f) ∷ es) = ground (arith, find-assign a b e es)

pub position-cache_of : (h : List Telegram) → length h < u32 → (cache_of h).position ≡ length h
unfolding push
position-cache_of [] l = refl
position-cache_of (t ∷ h) l = omega (arith, position-cache_of h (omega arith))

-- The entry of an address is that of its last telegram.
pub find-cache_of :
    (a : ℕ) (h : List Telegram)
    → length h < u32
    → find a (cache_of h).entries ≡ Option.map entry_of (last_push a h)
unfolding push
find-cache_of a [] l = unfold find in refl
find-cache_of a (t ∷ h) l =
    let e = position-cache_of h (omega arith) in
    let w : (length h + 1) % u32 % modulus ≡ suc (length h) % modulus = omega arith in
    rw (find-assign, e, wrapped_pos, w) (ground (arith, find-cache_of a h (omega arith)))

last_push-le :
    (a : ℕ) (h : List Telegram) (q : ℕ) (t : Telegram) → last_push a h ≡ some (q, t) → q ≤ length h
last_push-le a [] q t e = cc
last_push-le a (s ∷ h) q t e = ground (arith, last_push-le a h q t)

-- The value of an address, if its last telegram came after the first `p`.
abbrev pub new_value : ℕ → List Telegram → ℕ → Option Bytes
new_value p h addr = elim (last_push addr h) [
  | none ↦ none
  | some (q, t) ↦ if ltb p q then some t.value else none
]

-- The last telegram of the address is among the last `modulus` telegrams.
abbrev pub IsRecent : List Telegram → ℕ → Type 0
IsRecent h addr = (q : ℕ) (t : Telegram) → last_push addr h ≡ some (q, t) → length h < q + modulus

-- A client that saw the first `p` telegrams, less than half a turn of the position ago.
pub record IsCurrent (h : List Telegram) (p : ℕ) : Type 0 where
  pub counted : length h < u32
  pub seen : p ≤ length h
  pub near : length h < p + modulus / 2
  pub started : p % modulus ≢ 0

delta_value-new :
    (time p k a : ℕ) (h : List Telegram)
    → IsCurrent h p
    → IsRecent h a
    → delta_value time (p % modulus) (negsuc k) (cache_of h) a ≡ new_value p h a
unfolding delta_value
delta_value-new time p k a h c r = elim (Option-cases (last_push a h)) [
  | inl absent ↦
      let e : find a (cache_of h).entries ≡ none = rw absent at (find-cache_of a h c.counted) in
      rw (e, delta_value, absent, new_value)
  | inr ((q, t), found) ↦
      let e : find a (cache_of h).entries ≡ some (entry_of (q, t)) =
        rw found at (find-cache_of a h c.counted) in
      let s =
        selects-newer (length h) p q c.seen c.near c.started (last_push-le a h q t found)
          (r q t found) in
      rw (e, delta_value, found, new_value, position-cache_of h c.counted, s)
]

pub collect_congr :
    (f g : ℕ → Option Bytes) (P : ℕ → Type 0) (l : List ℕ)
    → ((a : ℕ) → P a → f a ≡ g a)
    → All P l
    → collect f l ≡ collect g l
unfolding collect
collect_congr f g P [] e h = refl
collect_congr f g P (a ∷ l) e (p, h) = ground (arith, e a p, collect_congr f g P l e h)

-- A client that polls with the position after the first `p` telegrams gets exactly the subscribed
-- addresses whose last telegram came later, each once and with its last value, and the position
-- after all telegrams. This holds with no age filter, for less than 2^32 telegrams, if fewer than
-- half a turn of the position came since, if the client's position is not 0, and if the last
-- telegram of every subscribed address is less than a whole turn old.
pub get_delta-new_values :
    (time p k : ℕ) (h : List Telegram) (subscribed : List ℕ)
    → IsCurrent h p
    → All (IsRecent h) subscribed
    → get_delta time (p % modulus) subscribed (negsuc k) (cache_of h)
      ≡ record { values = collect (new_value p h) subscribed; position = length h % modulus }
unfolding get_delta
get_delta-new_values time p k h subscribed c r = rw (
  position-cache_of h c.counted,
  collect_congr (delta_value time (p % modulus) (negsuc k) (cache_of h)) (new_value p h)
      (IsRecent h) subscribed (λ a. delta_value-new time p k a h c) r,
)

-- The value of a telegram that is younger than the limit, if there is one.
abbrev pub young_value : ℕ → ℤ → Option (ℕ × Telegram) → Option Bytes
young_value time max_age none = none
young_value time (negsuc k) (some (q, t)) = some t.value
young_value time (pos m) (some (q, t)) = if ltb (time - t.time) m then some t.value else none

young_by_age :
    (time q : ℕ) (t : Telegram) (m : ℤ)
    → time < u32
    → t.time ≤ time
    → (if too_old (time % u32) (t.time % u32) m then none else some t.value)
      ≡ young_value time m (some (q, t))
unfolding too_old
young_by_age time q t (negsuc k) n p = refl
young_by_age time q t (pos m) n p =
    let e : (time % u32 + u32 - t.time % u32) % u32 ≡ time - t.time = omega arith in
    rw e (ground arith)

-- Before the clock reaches 2^32 seconds, and after fewer than 2^32 telegrams, `get` returns the value
-- of the last telegram of the address; with an age limit it does so only if that telegram came
-- less than the limit ago. The telegram must not come from the future.
pub get-young_value :
    (time a : ℕ) (max_age : ℤ) (h : List Telegram)
    → length h < u32
    → time < u32
    → ((q : ℕ) (t : Telegram) → last_push a h ≡ some (q, t) → t.time ≤ time)
    → get time a max_age (cache_of h) ≡ young_value time max_age (last_push a h)
unfolding get
get-young_value time a max_age h l n past = elim (Option-cases (last_push a h)) [
  | inl absent ↦
      let e : find a (cache_of h).entries ≡ none = rw absent at (find-cache_of a h l) in
      rw (e, get, absent, young_value)
  | inr ((q, t), found) ↦
      let e : find a (cache_of h).entries ≡ some (entry_of (q, t)) =
        rw found at (find-cache_of a h l) in
      rw (e, get, found) (young_by_age time q t max_age n (past q t found))
]

-- ===== src/State/GroupCache.antt =====
-- src/state/group_cache.{h,cpp}: the cache of one process. The clock is an argument; the hash map is
-- an association list.
pub mod History
use cometvisu_knxd_fcgi.Prelude.{
  ℕ, ◌+◌, ◌%◌, Bool, Option, none, some, List, [], ◌∷◌, Bytes, ◌==◌, if◌then◌else◌,
}
use cometvisu_knxd_fcgi.Prelude.Int.{ℤ}
use cometvisu_knxd_fcgi.State.Position.{modulus, u32, wrapped_pos, selects, too_old}

pub record Entry : Type 0 where
  pub value : Bytes
  pub timestamp : ℕ
  pub pushed_at : ℕ

pub record GroupCache : Type 0 where
  pub entries : List (ℕ × Entry)
  pub position : ℕ

abbrev pub empty : GroupCache
empty = record { entries = []; position = 0 }

-- `entries_.find(addr)`
unfoldable pub find : ℕ → List (ℕ × Entry) → Option Entry
find addr [] = none
find addr ((a, e) ∷ es) = if a == addr then some e else find addr es

-- `entries_[addr] = e`
unfoldable pub assign : ℕ → Entry → List (ℕ × Entry) → List (ℕ × Entry)
assign addr e [] = (addr, e) ∷ []
assign addr e ((a, f) ∷ es) = if a == addr then (addr, e) ∷ es else (a, f) ∷ assign addr e es

unfoldable pub push : ℕ → ℕ → Bytes → GroupCache → GroupCache
unfolding assign wrapped_pos
push time addr value c = record {
  entries =
      assign addr
        (record { value = value; timestamp = time % u32; pushed_at = wrapped_pos c.position })
        c.entries;
  position = (c.position + 1) % u32;
}

unfoldable pub get : ℕ → ℕ → ℤ → GroupCache → Option Bytes
unfolding find too_old
get time addr max_age_sec c = elim (find addr c.entries) [
  | none ↦ none
  | some e ↦ if too_old (time % u32) e.timestamp max_age_sec then none else some e.value
]

pub record Delta : Type 0 where
  pub values : List (ℕ × Bytes)
  pub position : ℕ

-- One round of the loop of `get_delta`.
unfoldable pub delta_value : ℕ → ℕ → ℤ → GroupCache → ℕ → Option Bytes
unfolding find too_old selects
delta_value time since_pos max_age_sec c addr = elim (find addr c.entries) [
  | none ↦ none
  | some e ↦
      if too_old (time % u32) e.timestamp max_age_sec
      then none
      else if selects (c.position % modulus) since_pos e.pushed_at
      then some e.value
      else none
]

-- The values that `f` gives for the subscribed addresses, which the set holds in order, each once.
unfoldable pub collect : (ℕ → Option Bytes) → List ℕ → List (ℕ × Bytes)
collect f [] = []
collect f (addr ∷ subscribed) = elim (f addr) [
  | none ↦ collect f subscribed
  | some v ↦ (addr, v) ∷ collect f subscribed
]

unfoldable pub get_delta : ℕ → ℕ → List ℕ → ℤ → GroupCache → Delta
unfolding delta_value collect
get_delta time since_pos subscribed max_age_sec c = record {
  values = collect (delta_value time since_pos max_age_sec c) subscribed;
  position = c.position % modulus;
}

-- `position()`
unfoldable pub current_position : GroupCache → ℕ
current_position c = c.position % modulus

unfoldable pub clear : GroupCache → GroupCache
clear c = empty

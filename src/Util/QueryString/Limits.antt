-- ===== src/Util/QueryString/Limits.antt =====
-- The limits that the parser keeps, whatever the query string.
use cometvisu_knxd_fcgi.Prelude.{
  ℕ, zero, suc, ◌+◌, ◌≤◌, ◌<◌, ◌≡◌, refl, Option, none, some, [], ◌∷◌, arith, Bytes, leb, length,
  length-append, Option-cases, Bool-cases, List, inl, inr, ltb,
}
use cometvisu_knxd_fcgi.Util.QueryString.{
  Params, max_query_params, max_values_per_key, max_total_pairs, find_values, push_value, store,
  find_byte, read_pair, next_pos, parse_pairs, query_string,
}

-- How many values the map holds.
abbrev pub total_values : Params → ℕ
total_values [] = 0
total_values ((k, vs) ∷ ps) = length vs + total_values ps

-- No key stands twice, and each has some values, but not more than the limit.
abbrev pub Entries : Params → Type 0
Entries [] = Unit
Entries ((k, vs) ∷ ps) =
    (find_values k ps ≡ none) × (0 < length vs) × (length vs ≤ max_values_per_key) × Entries ps

pub record IsLimited (params : Params) : Type 0 where
  pub keys : length params ≤ max_query_params
  pub entries : Entries params

pub length-push_value : (k v : Bytes) (ps : Params) → length (push_value k v ps) ≡ length ps
unfolding push_value
length-push_value k v [] = refl
length-push_value k v ((j, vs) ∷ ps) = ground (arith, length-push_value k v ps)

find_values-push_value :
    (j k v : Bytes) (ps : Params)
    → find_values j ps ≡ none
    → find_values j (push_value k v ps) ≡ none
unfolding push_value find_values
find_values-push_value j k v [] h = refl
find_values-push_value j k v ((i, vs) ∷ ps) h = ground (arith, find_values-push_value j k v ps)

push_value-Entries :
    (k v : Bytes) (ps : Params) (vs : List Bytes)
    → find_values k ps ≡ some vs
    → length vs < max_values_per_key
    → Entries ps
    → Entries (push_value k v ps)
unfolding push_value find_values
push_value-Entries k v [] vs h lt e = tt
push_value-Entries k v ((j, ws) ∷ ps) vs h lt (e, p, q, r) = ground (
  arith,
  push_value-Entries k v ps vs,
  find_values-push_value j k v ps e,
  length-append ws (v ∷ []),
)

pub total_values-push_value-le :
    (k v : Bytes) (ps : Params) → total_values (push_value k v ps) ≤ total_values ps + 1
unfolding push_value
total_values-push_value-le k v [] = omega arith
total_values-push_value-le k v ((j, ws) ∷ ps) =
    ground (arith, total_values-push_value-le k v ps, length-append ws (v ∷ []))

-- `store` keeps the limits and adds one value at most.
record Grows (ps qs : Params) : Type 0 where
  limited : IsLimited qs
  one_more : total_values qs ≤ total_values ps + 1

Grows-same : {ps : Params} → IsLimited ps → Grows ps ps
Grows-same l = record { limited = l; one_more = omega arith }

store-Grows : (k v : Bytes) (ps : Params) → IsLimited ps → Grows ps (store k v ps)
unfolding store
store-Grows k v ps l = elim (Option-cases (find_values k ps)) [
  | inl absent ↦
      rw (absent, store)
        (elim (Bool-cases (leb max_query_params (length ps))) [
          | inl full ↦ rw full (Grows-same l)
          | inr room ↦ rw room (record {
            limited = record {
              keys = ground arith;
              entries = (absent, omega arith, omega arith, l.entries);
            };
            one_more = omega arith;
          })
        ])
  | inr (vs, found) ↦
      rw (found, store)
        (elim (Bool-cases (leb max_values_per_key (length vs))) [
          | inl full ↦ rw full (Grows-same l)
          | inr room ↦ rw room (record {
            limited = record {
              keys = omega (arith, length-push_value k v ps, l.keys);
              entries = push_value-Entries k v ps vs found (ground arith) l.entries;
            };
            one_more = total_values-push_value-le k v ps;
          })
        ])
]

read_pair-Grows :
    (rest : Bytes) (eq amp : Option ℕ) (ps : Params)
    → IsLimited ps
    → Grows ps (read_pair rest eq amp ps)
unfolding read_pair
read_pair-Grows rest none amp ps l = Grows-same l
read_pair-Grows rest (some eq) none ps l = store-Grows _ _ ps l
read_pair-Grows rest (some eq) (some amp) ps l = elim (Bool-cases (ltb amp eq)) [
  | inl malformed ↦ rw malformed (Grows-same l)
  | inr fine ↦ rw fine (store-Grows _ _ ps l)
]

parse_pairs_limits :
    (left : ℕ) (rest : Bytes) (ps : Params)
    → IsLimited ps
    → IsLimited (parse_pairs left rest ps)
      × (total_values (parse_pairs left rest ps) ≤ total_values ps + left)
unfolding parse_pairs
parse_pairs_limits zero rest ps l = (l, omega arith)
parse_pairs_limits (suc left) [] ps l = (l, omega arith)
parse_pairs_limits (suc left) (c ∷ s) ps l =
    let rest = c ∷ s in
    let amp = find_byte b'&' rest in
    let next = read_pair rest (find_byte b'=' rest) amp ps in
    let g = read_pair-Grows rest (find_byte b'=' rest) amp ps l in
    let (l', t) = parse_pairs_limits left (next_pos rest amp) next g.limited in
    (l', omega (arith, t, g.one_more))

-- Whatever the query string, its map has 100 keys at most, no key twice, and for each key between
-- one and 250 values; all keys together have 256 values at most.
pub query_string-IsLimited :
    (raw : Bytes)
    → IsLimited (query_string raw) × (total_values (query_string raw) ≤ max_total_pairs)
unfolding query_string
query_string-IsLimited raw =
    parse_pairs_limits max_total_pairs raw [] (record { keys = omega arith; entries = tt })

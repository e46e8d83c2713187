-- ===== src/Util/QueryString/Values.antt =====
-- The values that the parser reads from a well-formed query string.
use cometvisu_knxd_fcgi.Prelude.{
  ℕ, zero, suc, ◌+◌, ◌-◌, ◌≤◌, ◌<◌, ◌≡◌, ◌≢◌, refl, sym, Bool, false, none, some, List, [], ◌∷◌,
  ◌++◌, append_assoc, append-nil, arith, Bytes, bytes_eq, bytes_eq_iff, ltb, leb, if◌then◌else◌,
  length, All, All-append, length-append, take-append, take_all, Option-cases, Bool-cases, inl, inr,
  drop-append_suc, ◌∙◌,
}
use cometvisu_knxd_fcgi.Util.QueryString.{
  Params, max_query_params, max_total_pairs, url_decode, find_values, push_value, store, find_byte,
  read_pair, next_pos, parse_pairs, query_string, get_all,
}
use cometvisu_knxd_fcgi.Util.QueryString.Limits.{
  total_values, length-push_value, total_values-push_value-le,
}

abbrev pub Lacks : ℕ → Bytes → Type 0
Lacks c = All λ d. d ≢ c

-- `k=v` joined by `&`, the keys and values as they stand in the text.
abbrev pub write_query : List (Bytes × Bytes) → Bytes
write_query [] = []
write_query ((k, v) ∷ []) = k ++ b'=' ∷ v
write_query ((k, v) ∷ p ∷ ps) = k ++ b'=' ∷ (v ++ b'&' ∷ write_query (p ∷ ps))

abbrev pub Separable : List (Bytes × Bytes) → Type 0
Separable = All λ p. Lacks b'=' p.0 × Lacks b'&' p.0 × Lacks b'&' p.1

-- The values of the pairs whose key decodes to `key`, in order.
abbrev pub values_of : Bytes → List (Bytes × Bytes) → List Bytes
values_of key [] = []
values_of key ((k, v) ∷ ps) =
    if bytes_eq (url_decode k) key then url_decode v ∷ values_of key ps else values_of key ps

pub find_byte-none : (c : ℕ) (s : Bytes) → Lacks c s → find_byte c s ≡ none
unfolding find_byte
find_byte-none c [] h = refl
find_byte-none c (d ∷ s) (p, h) = ground (arith, find_byte-none c s h)

pub find_byte-append :
    (c : ℕ) (s t : Bytes) → Lacks c s → find_byte c (s ++ c ∷ t) ≡ some (length s)
unfolding find_byte
find_byte-append c [] t h = ground arith
find_byte-append c (d ∷ s) t (p, h) = ground (arith, find_byte-append c s t h)

find_values-le :
    (k : Bytes) (ps : Params) (vs : List Bytes)
    → find_values k ps ≡ some vs
    → length vs ≤ total_values ps
unfolding find_values
find_values-le k [] vs h = absurd (ground arith)
find_values-le k ((j, ws) ∷ ps) vs h = ground (arith, find_values-le k ps vs)

get_all-cons :
    (j i : Bytes) (ws : List Bytes) (ps : Params)
    → get_all j ((i, ws) ∷ ps) ≡ (if bytes_eq i j then ws else get_all j ps)
unfolding get_all
get_all-cons j i ws ps = ground arith

get_all_absent : (j : Bytes) (ps : Params) → find_values j ps ≡ none → get_all j ps ≡ []
unfolding get_all
get_all_absent j ps h = rw (h, get_all)

abbrev one_if : Bool → Bytes → List Bytes
one_if b v = if b then v ∷ [] else []

get_all-push_value :
    (k v j : Bytes) (ps : Params) (vs : List Bytes)
    → find_values k ps ≡ some vs
    → get_all j (push_value k v ps) ≡ get_all j ps ++ one_if (bytes_eq k j) v
unfolding push_value find_values
get_all-push_value k v j [] vs h = absurd (ground arith)
get_all-push_value k v j ((i, ws) ∷ ps) vs h =
    let deeper = get_all-push_value k v j ps vs in
    elim (Bool-cases (bytes_eq i k)) [
      | inl here ↦
          let e : i ≡ k = (bytes_eq_iff i k).0 here in
          rw (here, get_all-cons, get_all-cons, e) (ground (arith, append-nil (get_all j ps)))
      | inr other ↦
          let later : find_values k ps ≡ some vs = rw other at h in
          rw (other, get_all-cons, get_all-cons)
            (ground (
              arith,
              deeper later,
              bytes_eq_iff i j,
              bytes_eq_iff k j,
              bytes_eq_iff i k,
              append-nil ws,
            ))
    ]

get_all-store :
    (k v j : Bytes) (ps : Params)
    → length ps < max_query_params
    → total_values ps < 250
    → get_all j (store k v ps) ≡ get_all j ps ++ one_if (bytes_eq k j) v
unfolding store
get_all-store k v j ps few small = elim (Option-cases (find_values k ps)) [
  | inl absent ↦
      let room : leb max_query_params (length ps) ≡ false = ground arith in
      rw (absent, store, room, get_all-cons)
        (ground (arith, get_all_absent k ps, bytes_eq_iff k j, append-nil (get_all j ps)))
  | inr (vs, found) ↦
      let room : leb 250 (length vs) ≡ false = ground (arith, find_values-le k ps vs found) in
      rw (found, store, room) (get_all-push_value k v j ps vs found)
]

-- One round of the loop on `k=v`, at the end of the text or before an `&`.
read_pair_last :
    (k v : Bytes) (ps : Params)
    → read_pair (k ++ b'=' ∷ v) (some (length k)) none ps ≡ store (url_decode k) (url_decode v) ps
unfolding read_pair
read_pair_last k v ps =
    let n : length (k ++ b'=' ∷ v) - length k - 1 ≡ length v =
      omega (arith, length-append {0} k (b'=' ∷ v)) in
    rw (take-append k (b'=' ∷ v), drop-append_suc k b'=' v, n, take_all v)

read_pair_more :
    (k v tail : Bytes) (ps : Params)
    → read_pair
        (k ++ b'=' ∷ (v ++ b'&' ∷ tail))
        (some (length k))
        (some (length k + suc (length v)))
        ps
      ≡ store (url_decode k) (url_decode v) ps
unfolding read_pair
read_pair_more k v tail ps =
    let rest = v ++ b'&' ∷ tail in
    let fine : ltb (length k + suc (length v)) (length k) ≡ false = ground arith in
    let n : length k + suc (length v) - length k - 1 ≡ length v = omega arith in
    rw (
      fine,
      take-append k (b'=' ∷ rest),
      drop-append_suc k b'=' rest,
      n,
      take-append v (b'&' ∷ tail),
    )

-- Room for `n` more pairs.
record HasRoom (n : ℕ) (ps : Params) : Type 0 where
  keys : length ps + n ≤ 100
  values : total_values ps + n ≤ 100

store-HasRoom : (k v : Bytes) (n : ℕ) (ps : Params) → HasRoom (suc n) ps → HasRoom n (store k v ps)
unfolding store
store-HasRoom k v n ps r = elim (Option-cases (find_values k ps)) [
  | inl absent ↦
      let room : leb max_query_params (length ps) ≡ false = ground arith in
      rw (absent, store, room) (record { keys = omega arith; values = omega arith })
  | inr (vs, found) ↦
      let room : leb 250 (length vs) ≡ false = ground (arith, find_values-le k ps vs found) in
      rw (found, store, room)
        (record {
          keys = omega (arith, length-push_value k v ps);
          values = omega (arith, total_values-push_value-le k v ps);
        })
]

parse_pairs-nil : (left : ℕ) (ps : Params) → parse_pairs left [] ps ≡ ps
unfolding parse_pairs
parse_pairs-nil zero ps = refl
parse_pairs-nil (suc left) ps = refl

parse_pairs_round :
    (left : ℕ) (k s : Bytes) (ps : Params)
    → parse_pairs (suc left) (k ++ b'=' ∷ s) ps
      ≡ parse_pairs left (next_pos (k ++ b'=' ∷ s) (find_byte b'&' (k ++ b'=' ∷ s))) (
          read_pair
            (k ++ b'=' ∷ s)
            (find_byte b'=' (k ++ b'=' ∷ s))
            (find_byte b'&' (k ++ b'=' ∷ s))
            ps)
unfolding parse_pairs
parse_pairs_round left [] s ps = refl
parse_pairs_round left (c ∷ k) s ps = refl

parse_pairs_last :
    (left : ℕ) (k v : Bytes) (ps : Params)
    → Lacks b'=' k × Lacks b'&' k × Lacks b'&' v
    → parse_pairs (suc left) (k ++ b'=' ∷ v) ps ≡ store (url_decode k) (url_decode v) ps
parse_pairs_last left k v ps (p, q, r) =
    let whole : Lacks b'&' (k ++ b'=' ∷ v) = All-append _ k (b'=' ∷ v) q (omega arith, r) in
    rw
      (
        parse_pairs_round left k v ps,
        find_byte-append b'=' k v p,
        find_byte-none b'&' (k ++ b'=' ∷ v) whole,
        read_pair_last k v ps,
      )
      (unfold next_pos in parse_pairs-nil left _)

parse_pairs_more :
    (left : ℕ) (k v tail : Bytes) (ps : Params)
    → Lacks b'=' k × Lacks b'&' k × Lacks b'&' v
    → parse_pairs (suc left) (k ++ b'=' ∷ (v ++ b'&' ∷ tail)) ps
      ≡ parse_pairs left tail (store (url_decode k) (url_decode v) ps)
parse_pairs_more left k v tail ps (p, q, r) =
    let rest = k ++ b'=' ∷ (v ++ b'&' ∷ tail) in
    let key_value : Lacks b'&' (k ++ b'=' ∷ v) = All-append _ k (b'=' ∷ v) q (omega arith, r) in
    let amp : find_byte b'&' rest ≡ some (length k + suc (length v)) =
      rw (append_assoc k (b'=' ∷ v) (b'&' ∷ tail), length-append k (b'=' ∷ v)) at
        (find_byte-append b'&' (k ++ b'=' ∷ v) tail key_value) in
    let next : next_pos rest (some (length k + suc (length v))) ≡ tail =
      unfold next_pos in
      rw (append_assoc k (b'=' ∷ v) (b'&' ∷ tail), length-append k (b'=' ∷ v)) at
        (drop-append_suc (k ++ b'=' ∷ v) b'&' tail) in
    rw (
      parse_pairs_round left k (v ++ b'&' ∷ tail) ps,
      find_byte-append b'=' k (v ++ b'&' ∷ tail) p,
      amp,
      next,
      read_pair_more k v tail ps,
    )

values_of-cons :
    (key k v : Bytes) (pairs : List (Bytes × Bytes))
    → values_of key ((k, v) ∷ pairs)
      ≡ one_if (bytes_eq (url_decode k) key) (url_decode v) ++ values_of key pairs
values_of-cons key k v pairs = ground arith

-- What a stored pair and the pairs behind it add.
get_all-store-append :
    (key k v : Bytes) (n : ℕ) (ps : Params) (pairs : List (Bytes × Bytes))
    → HasRoom (suc n) ps
    → get_all key (store (url_decode k) (url_decode v) ps) ++ values_of key pairs
      ≡ get_all key ps ++ values_of key ((k, v) ∷ pairs)
get_all-store-append key k v n ps pairs r =
    let few : length ps < 100 = omega arith in
    let small : total_values ps < 250 = omega arith in
    rw (get_all-store (url_decode k) (url_decode v) key ps few small, values_of-cons key k v pairs)
      (append_assoc (get_all key ps) (one_if (bytes_eq (url_decode k) key) (url_decode v))
        (values_of key pairs))

get_all-parse_pairs :
    (left : ℕ) (pairs : List (Bytes × Bytes)) (key : Bytes) (ps : Params)
    → length pairs ≤ left
    → Separable pairs
    → HasRoom (length pairs) ps
    → get_all key (parse_pairs left (write_query pairs) ps) ≡ get_all key ps ++ values_of key pairs
get_all-parse_pairs left [] key ps h s r =
    rw (parse_pairs-nil left ps) (sym (append-nil (get_all key ps)))
get_all-parse_pairs zero (p ∷ pairs) key ps h s r = absurd (omega arith)
get_all-parse_pairs (suc left) ((k, v) ∷ []) key ps h (s, _) r =
    rw (parse_pairs_last left k v ps s, ← get_all-store-append key k v 0 ps [] r)
      (sym (append-nil (get_all key (store (url_decode k) (url_decode v) ps))))
get_all-parse_pairs (suc left) ((k, v) ∷ p ∷ pairs) key ps h (s, t) r =
    let room = store-HasRoom (url_decode k) (url_decode v) (suc (length pairs)) ps r in
    rw
      (
        parse_pairs_more left k v (write_query (p ∷ pairs)) ps s,
        ← get_all-store-append key k v (suc (length pairs)) ps (p ∷ pairs) r,
      )
      (get_all-parse_pairs left (p ∷ pairs) key (store (url_decode k) (url_decode v) ps)
        (omega arith) t room)

-- For a query of up to 100 pairs `k=v`, where no key text has an `=` or an `&` and no value text an
-- `&`, `get_all` returns the decoded values of the pairs whose key decodes to the wanted one, in
-- the order of the query.
pub get_all-query_string :
    (pairs : List (Bytes × Bytes)) (key : Bytes)
    → length pairs ≤ 100
    → Separable pairs
    → get_all key (query_string (write_query pairs)) ≡ values_of key pairs
unfolding query_string
get_all-query_string pairs key few s =
    get_all-parse_pairs max_total_pairs pairs key [] (omega arith) s
      (record { keys = omega arith; values = omega arith })
    ∙ unfold get_all find_values in refl

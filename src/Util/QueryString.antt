-- ===== src/Util/QueryString.antt =====
-- src/util/query_string.{h,cpp}: the query string as a multi-valued map. The unread text stands for
-- the position in `raw`; the hash map is an association list, of which only lookups and the size
-- are used.
pub mod Limits
pub mod Values
use Prim.Native.Nat.{bit_or}
use cometvisu_knxd_fcgi.Prelude.{
  ℕ, zero, suc, ◌+◌, ◌-◌, ◌*◌, ◌%◌, ◌^◌, Bool, true, false, ◌&&◌, ◌||◌, Option, none, some, List,
  [], ◌∷◌, ◌++◌, Bytes, bytes_eq, ltb, leb, ◌==◌, if◌then◌else◌, length, take, drop, is_empty,
}

abbrev pub max_query_params : ℕ
max_query_params = 100

abbrev pub max_values_per_key : ℕ
max_values_per_key = 250

abbrev pub max_total_pairs : ℕ
max_total_pairs = 256

-- The lambda `from_hex`; `none` is -1.
unfoldable pub from_hex : ℕ → Option ℕ
from_hex c =
    if leb b'0' c && leb c b'9'
    then some (c - b'0')
    else if leb b'a' c && leb c b'f'
    then some (c - b'a' + 10)
    else if leb b'A' c && leb c b'F'
    then some (c - b'A' + 10)
    else none

-- `static_cast<char>((hi << 4) | lo)`, if both are digits
unfoldable pub percent_byte : ℕ → ℕ → Option ℕ
unfolding from_hex
percent_byte h l = elim (from_hex h) [
  | none ↦ none
  | some hi ↦ elim (from_hex l) [ none ↦ none | some lo ↦ some (bit_or (hi * 2 ^ 4) lo % 256) ]
]

abbrev pub plus_to_space : ℕ → ℕ
plus_to_space c = if c == b'+' then b' ' else c

unfoldable pub url_decode : Bytes → Bytes
unfolding percent_byte
url_decode [] = []
url_decode (c ∷ []) = plus_to_space c ∷ []
url_decode (c ∷ d ∷ []) = plus_to_space c ∷ plus_to_space d ∷ []
url_decode (c ∷ h ∷ l ∷ rest) =
    let skipped = url_decode rest in
    let next = url_decode (h ∷ l ∷ rest) in
    if c == b'%'
    then elim (percent_byte h l) [ some b ↦ b ∷ skipped | none ↦ plus_to_space c ∷ next ]
    else plus_to_space c ∷ next

abbrev pub Params : Type 0
Params = List (Bytes × List Bytes)

-- `params_.find(key)`
unfoldable pub find_values : Bytes → Params → Option (List Bytes)
find_values key [] = none
find_values key ((k, vs) ∷ ps) = if bytes_eq k key then some vs else find_values key ps

-- `it->second.push_back(value)`
unfoldable pub push_value : Bytes → Bytes → Params → Params
push_value key value [] = []
push_value key value ((k, vs) ∷ ps) =
    if bytes_eq k key then (k, vs ++ value ∷ []) ∷ ps else (k, vs) ∷ push_value key value ps

-- The part of the loop behind "Enforce max unique keys and max values per key".
unfoldable pub store : Bytes → Bytes → Params → Params
unfolding find_values push_value
store key value params = elim (find_values key params) [
  | some vs ↦ if leb max_values_per_key (length vs) then params else push_value key value params
  | none ↦ if leb max_query_params (length params) then params else (key, value ∷ []) ∷ params
]

-- `raw.find(c, pos)`, counted from `pos`
unfoldable pub find_byte : ℕ → Bytes → Option ℕ
find_byte c [] = none
find_byte c (d ∷ s) =
    if d == c then some 0 else elim (find_byte c s) [ none ↦ none | some i ↦ some (suc i) ]

-- One round of the loop, without the move to the next position.
unfoldable pub read_pair : Bytes → Option ℕ → Option ℕ → Params → Params
unfolding url_decode store
read_pair rest none amp params = params
read_pair rest (some eq) none params =
    store (url_decode (take eq rest))
      (url_decode (take (length rest - eq - 1) (drop (eq + 1) rest))) params
read_pair rest (some eq) (some amp) params =
    if ltb amp eq
    then params
    else store (url_decode (take eq rest)) (url_decode (take (amp - eq - 1) (drop (eq + 1) rest)))
        params

-- `pos = (amp == npos) ? raw.size() : amp + 1`
unfoldable pub next_pos : Bytes → Option ℕ → Bytes
next_pos rest none = []
next_pos rest (some amp) = drop (amp + 1) rest

-- The loop; the first argument counts down the pairs that `kMaxTotalPairs` leaves.
unfoldable pub parse_pairs : ℕ → Bytes → Params → Params
unfolding find_byte read_pair next_pos
parse_pairs zero rest params = params
parse_pairs (suc left) [] params = params
parse_pairs (suc left) (c ∷ s) params =
    let rest = c ∷ s in
    let amp = find_byte b'&' rest in
    parse_pairs left (next_pos rest amp) (read_pair rest (find_byte b'=' rest) amp params)

-- The constructor.
unfoldable pub query_string : Bytes → Params
unfolding parse_pairs
query_string raw = parse_pairs max_total_pairs raw []

unfoldable pub get : Bytes → Params → Option Bytes
unfolding find_values
get key params = elim (find_values key params) [
  | none ↦ none
  | some vs ↦ elim vs [ [] ↦ none | v ∷ _ ↦ some v ]
]

unfoldable pub get_all : Bytes → Params → List Bytes
unfolding find_values
get_all key params = elim (find_values key params) [ none ↦ [] | some vs ↦ vs ]

unfoldable pub has : Bytes → Params → Bool
unfolding find_values
has key params = elim (find_values key params) [ none ↦ false | some _ ↦ true ]

-- ===== src/Tests/Util.antt =====
-- Runs of the models of src/util, and instances of their theorems.
use cometvisu_knxd_fcgi.Prelude.{◌≡◌, refl, List, [], ◌∷◌, Bytes, codes, arith, false, ◌≤◌}
use cometvisu_knxd_fcgi.Util.Hex.{hex_decode, hex_encode, hex_char, is_xdigit, nibble}
use cometvisu_knxd_fcgi.Util.QueryString.{query_string, url_decode, get_all, has, max_total_pairs}
use cometvisu_knxd_fcgi.Util.QueryString.Limits.{IsLimited, total_values, query_string-IsLimited}
use cometvisu_knxd_fcgi.Util.QueryString.Values.{values_of, write_query, get_all-query_string}

abbrev sample : Bytes
sample = 0x0c ∷ 0x6f ∷ 0xff ∷ []

hex_encode-sample : hex_encode sample ≡ codes "0c6fff"
unfolding hex_encode hex_char
hex_encode-sample = refl

hex_decode_upper : hex_decode (codes "0C6F") ≡ 0x0c ∷ 0x6f ∷ []
unfolding hex_decode is_xdigit nibble
hex_decode_upper = refl

url_decode_mixed : url_decode (codes "a%20b+c%zz%4") ≡ codes "a b c%zz%4"
unfolding url_decode
url_decode_mixed = refl

multi_values :
    get_all (codes "a") (query_string (codes "a=1/2/3&t=5&a=4/5/6"))
    ≡ codes "1/2/3" ∷ codes "4/5/6" ∷ []
unfolding query_string get_all
multi_values = refl

malformed_pair : has (codes "x") (query_string (codes "x&y=1")) ≡ false
unfolding query_string has
malformed_pair = refl

abbrev pairs : List (Bytes × Bytes)
pairs = (codes "a", codes "1/2/3") ∷ (codes "t", codes "5") ∷ (codes "a", codes "4%2f5") ∷ []

get_all-query_string_example :
    get_all (codes "a") (query_string (write_query pairs)) ≡ values_of (codes "a") pairs
get_all-query_string_example = get_all-query_string pairs (codes "a") (omega arith) (omega arith)

query_string-IsLimited_example :
    IsLimited (query_string (codes "a=1&b=2&a=3"))
    × (total_values (query_string (codes "a=1&b=2&a=3")) ≤ max_total_pairs)
query_string-IsLimited_example = query_string-IsLimited (codes "a=1&b=2&a=3")

-- ===== src/Util/JsonBuilder.antt =====
-- src/util/json_builder.{h,cpp}: JSON text in steps.
pub mod Members
use cometvisu_knxd_fcgi.Prelude.Decimal.{to_decimal}
use cometvisu_knxd_fcgi.Prelude.Int.{ℤ, pos, negsuc}
use cometvisu_knxd_fcgi.Prelude.{
  ℕ, zero, suc, Bool, true, false, [], ◌∷◌, ◌++◌, Bytes, ◌==◌, if◌then◌else◌,
}

pub record JsonBuilder : Type 0 where
  pub buffer : Bytes
  pub first : Bool
  pub open_objects : ℤ

abbrev pub new_builder : JsonBuilder
new_builder = record { buffer = []; first = true; open_objects = pos 0 }

abbrev pub increment : ℤ → ℤ
increment (pos n) = pos (suc n)
increment (negsuc zero) = pos 0
increment (negsuc (suc n)) = negsuc n

abbrev pub decrement : ℤ → ℤ
decrement (pos zero) = negsuc 0
decrement (pos (suc n)) = pos n
decrement (negsuc n) = negsuc (suc n)

unfoldable pub start_object : JsonBuilder → JsonBuilder
start_object j = record {
  buffer = j.buffer ++ b'{' ∷ [];
  first = true;
  open_objects = increment j.open_objects;
}

unfoldable pub end_object : JsonBuilder → JsonBuilder
end_object j = record {
  buffer = j.buffer ++ b'}' ∷ [];
  first = false;
  open_objects = decrement j.open_objects;
}

unfoldable pub add_comma : JsonBuilder → JsonBuilder
add_comma j = if j.first then j else record j { buffer = j.buffer ++ b',' ∷ [] }

-- The `switch` of `add_quoted`; 92 is the backslash.
unfoldable pub escape_char : ℕ → Bytes
escape_char c =
    if c == b'"'
    then 92 ∷ b'"' ∷ []
    else if c == 92
    then 92 ∷ 92 ∷ []
    else if c == 10
    then 92 ∷ b'n' ∷ []
    else if c == 13
    then 92 ∷ b'r' ∷ []
    else if c == 9
    then 92 ∷ b't' ∷ []
    else c ∷ []

unfoldable pub escape : Bytes → Bytes
escape [] = []
escape (c ∷ s) = escape_char c ++ escape s

-- What `add_quoted` appends.
unfoldable pub quoted : Bytes → Bytes
quoted s = b'"' ∷ escape s ++ b'"' ∷ []

unfoldable pub add_quoted : Bytes → JsonBuilder → JsonBuilder
add_quoted s j = record j { buffer = j.buffer ++ quoted s }

unfoldable pub append_text : Bytes → JsonBuilder → JsonBuilder
append_text s j = record j { buffer = j.buffer ++ s }

unfoldable pub add_string : Bytes → Bytes → JsonBuilder → JsonBuilder
add_string key value j =
    let keyed = append_text (b':' ∷ []) (add_quoted key (add_comma j)) in
    record (add_quoted value keyed) { first = false }

-- `std::to_string`
abbrev pub number_text : ℤ → Bytes
number_text (pos n) = to_decimal n
number_text (negsuc n) = b'-' ∷ to_decimal (suc n)

unfoldable pub add_number : Bytes → ℤ → JsonBuilder → JsonBuilder
add_number key value j =
    let keyed = append_text (b':' ∷ []) (add_quoted key (add_comma j)) in
    record (append_text (number_text value) keyed) { first = false }

unfoldable pub add_key : Bytes → JsonBuilder → JsonBuilder
add_key key j = record (append_text (b':' ∷ []) (add_quoted key (add_comma j))) { first = true }

unfoldable pub add_raw : Bytes → JsonBuilder → JsonBuilder
add_raw raw j = record (append_text raw (add_comma j)) { first = false }

-- `clear()`
unfoldable pub clear_builder : JsonBuilder → JsonBuilder
clear_builder j = new_builder

-- ===== src/Util/JsonBuilder/Members.antt =====
-- The text that src/util/json_builder.cpp builds, read back.
use native.Mathlib.Decide.{ℕ_discrete}
use cometvisu_knxd_fcgi.Util.JsonBuilder.{
  JsonBuilder, escape, quoted, escape_char, add_raw, add_string, add_quoted, append_text, add_comma,
  end_object, start_object, new_builder, add_key,
}
use cometvisu_knxd_fcgi.Prelude.{
  ℕ, ◌≡◌, refl, Bool, true, false, Option, none, some, [], ◌∷◌, ◌++◌, Bytes, ◌==◌, if◌then◌else◌,
  append_assoc, sym, ◌∙◌, List, arith, append-nil, ap, inl, inr, Bool-cases,
}

-- The character that an escape stands for.
abbrev pub unescape : ℕ → ℕ
unescape c = if c == b'n' then 10 else if c == b'r' then 13 else if c == b't' then 9 else c

abbrev prepend : ℕ → Option (Bytes × Bytes) → Option (Bytes × Bytes)
prepend c none = none
prepend c (some (s, rest)) = some (c ∷ s, rest)

-- Reads a JSON string behind its first quotation mark, and gives what follows it. The flag says
-- that a backslash came before.
unfoldable pub read_string : Bool → Bytes → Option (Bytes × Bytes)
read_string escaped [] = none
read_string true (c ∷ s) = prepend (unescape c) (read_string false s)
read_string false (c ∷ s) =
    let next = read_string (c == 92) s in
    if c == b'"' then some ([], s) else if c == 92 then next else prepend c next

read_string-escape_char :
    (c : ℕ) (s : Bytes) → read_string false (escape_char c ++ s) ≡ prepend c (read_string false s)
unfolding read_string escape_char
read_string-escape_char c s = elim (ℕ_discrete c b'"') [
  | yes quote ↦ rw quote
  | no n₁ ↦ elim (ℕ_discrete c 92) [
    | yes backslash ↦ rw backslash
    | no n₂ ↦ elim (ℕ_discrete c 10) [
      | yes newline ↦ rw newline
      | no n₃ ↦ elim (ℕ_discrete c 13) [
        | yes return ↦ rw return
        | no n₄ ↦ elim (ℕ_discrete c 9) [ yes tab ↦ rw tab | no n₅ ↦ ground arith ]
      ]
    ]
  ]
]

-- A string that is escaped and ended by a quotation mark is read back, whatever bytes it has, and what follows
-- is left.
pub read_string-escape :
    (s rest : Bytes) → read_string false (escape s ++ b'"' ∷ rest) ≡ some (s, rest)
unfolding escape
read_string-escape [] rest = unfold read_string in refl
read_string-escape (c ∷ s) rest =
    rw
      (append_assoc, read_string-escape_char c (escape s ++ b'"' ∷ rest), read_string-escape s rest)

-- One member of an object.
abbrev pub member : Bytes → Bytes → Bytes
member key text = quoted key ++ b':' ∷ text

-- Members with the commas that belong between them and, unless they are the first, before them.
abbrev pub joined : Bool → List Bytes → Bytes
joined first [] = []
joined true (m ∷ ms) = m ++ joined false ms
joined false (m ∷ ms) = b',' ∷ m ++ joined false ms

-- The text of an object.
abbrev pub object_text : List Bytes → Bytes
object_text ms = b'{' ∷ joined true ms ++ b'}' ∷ []

-- What a builder is after members were added to it.
abbrev pub add_members : List Bytes → JsonBuilder → JsonBuilder
add_members [] j = j
add_members (m ∷ ms) j = add_members ms (add_raw m j)

pub add_string-member :
    (key value : Bytes) (j : JsonBuilder)
    → add_string key value j ≡ add_raw (member key (quoted value)) j
unfolding add_string add_raw add_quoted append_text add_comma
add_string-member key value j =
    let c = (add_comma j).buffer in
    let q = quoted key in
    let v = quoted value in
    ap
      (λ (b : Bytes).
        let e : JsonBuilder = record {
          buffer = b;
          first = false;
          open_objects = (add_comma j).open_objects;
        } in
        e)
      (append_assoc (c ++ q) (b':' ∷ []) v ∙ append_assoc c q (b':' ∷ v))

pub add_members-append :
    (ms ns : List Bytes) (j : JsonBuilder)
    → add_members (ms ++ ns) j ≡ add_members ns (add_members ms j)
add_members-append [] ns j = refl
add_members-append (m ∷ ms) ns j = add_members-append ms ns (add_raw m j)

buffer-add_raw :
    (m : Bytes) (j : JsonBuilder) (ms : List Bytes)
    → (add_raw m j).buffer ++ joined false ms ≡ j.buffer ++ joined j.first (m ∷ ms)
unfolding add_raw append_text add_comma
buffer-add_raw m j ms = elim (Bool-cases j.first) [
  | inl start ↦ rw (start, append_assoc)
  | inr later ↦ rw later (
      append_assoc (j.buffer ++ b',' ∷ []) m (joined false ms)
      ∙ append_assoc j.buffer (b',' ∷ []) (m ++ joined false ms))
]

pub buffer-add_members :
    (ms : List Bytes) (j : JsonBuilder) → (add_members ms j).buffer ≡ j.buffer ++ joined j.first ms
unfolding add_raw
buffer-add_members [] j = sym (append-nil j.buffer)
buffer-add_members (m ∷ ms) j = buffer-add_members ms (add_raw m j) ∙ buffer-add_raw m j ms

-- An object that is started in an empty builder, filled and ended has its members in order, with
-- commas between them.
pub object-add_members :
    (ms : List Bytes)
    → (end_object (add_members ms (start_object new_builder))).buffer ≡ object_text ms
unfolding end_object start_object
object-add_members ms = rw (buffer-add_members ms (start_object new_builder))

-- The same inside another object: the nested object is one more member.
pub buffer-nested :
    (key : Bytes) (ms : List Bytes) (j : JsonBuilder)
    → (end_object (add_members ms (start_object (add_key key j)))).buffer
      ≡ (add_raw (member key (object_text ms)) j).buffer
unfolding end_object start_object add_key add_raw append_text add_quoted
buffer-nested key ms j =
    let c = (add_comma j).buffer in
    let q = quoted key in
    rw (buffer-add_members ms (start_object (add_key key j))) (
      append_assoc (((c ++ q) ++ b':' ∷ []) ++ b'{' ∷ []) (joined true ms) (b'}' ∷ [])
      ∙ append_assoc ((c ++ q) ++ b':' ∷ []) (b'{' ∷ []) (joined true ms ++ b'}' ∷ [])
      ∙ append_assoc (c ++ q) (b':' ∷ []) (object_text ms)
      ∙ append_assoc c q (b':' ∷ object_text ms))

-- ===== src/Util/DebugLog.antt =====
-- src/util/debug_log.cpp: what each call writes to stderr, with the time as a text.
use cometvisu_knxd_fcgi.Prelude.Decimal.{to_decimal}
use cometvisu_knxd_fcgi.Prelude.{
  length-append, length-take, ℕ, ◌+◌, ◌≤◌, ◌<◌, Bool, true, false, ◌||◌, Option, none, some, [],
  ◌∷◌, ◌++◌, Bytes, leb, ◌==◌, if◌then◌else◌, length, bytes_eq, codes, take, is_empty, ◌≡◌, ◌∙◌,
  inl, inr, arith, Bool-cases, ap,
}

-- The static members.
pub record DebugLog : Type 0 where
  pub enabled : Bool
  pub max_uri_length : ℕ
  pub max_body_length : ℕ

abbrev pub initial : DebugLog
initial = record { enabled = false; max_uri_length = 500; max_body_length = 1000 }

abbrev pub accepted_value : Bytes → Bool
accepted_value val =
    bytes_eq val (codes "1")
    || bytes_eq val (codes "true")
    || bytes_eq val (codes "yes")
    || bytes_eq val (codes "on")

-- `init_from_env`, with the value of `DEBUG_BACKEND`.
unfoldable pub init_from_env : Option Bytes → DebugLog → DebugLog
init_from_env none log = record log { enabled = false }
init_from_env (some []) log = record log { enabled = false }
init_from_env (some (c ∷ val)) log = record log { enabled = accepted_value (c ∷ val) }

-- `write_truncated`: whether it truncates, and what it writes.
unfoldable pub write_truncated : Bytes → ℕ → Bool × Bytes
write_truncated text max_len =
    if (max_len == 0) || leb (length text) max_len then (false, text) else (
      true,
      take max_len text
          ++ codes "... (truncated, "
          ++ to_decimal (length text)
          ++ codes " chars total)",
    )

-- The arrows, in UTF-8.
abbrev pub to_right : Bytes
to_right = 0xe2 ∷ 0x86 ∷ 0x92 ∷ []

abbrev pub to_left : Bytes
to_left = 0xe2 ∷ 0x86 ∷ 0x90 ∷ []

abbrev pub newline : Bytes
newline = 10 ∷ []

-- A line after its timestamp.
abbrev pub line : Bytes → Bytes → Bytes
line time text = codes "[" ++ time ++ codes "] " ++ text ++ newline

unfoldable pub http_request : Bytes → Bytes → Bytes → DebugLog → Bytes
http_request time method uri log =
    if log.enabled
    then line time (
        to_right
        ++ codes " HTTP REQUEST: "
        ++ method
        ++ codes " "
        ++ (write_truncated uri log.max_uri_length).1)
    else []

-- A part of a line that is left out if its text is empty.
unfoldable pub labelled : Bytes → Bytes → Bytes
labelled label [] = []
labelled label (c ∷ text) = label ++ c ∷ text

unfoldable pub http_response : Bytes → ℕ → Bytes → DebugLog → Bytes
http_response time status_code body log =
    if log.enabled
    then line time (
        to_left
        ++ codes " HTTP RESPONSE: "
        ++ to_decimal status_code
        ++ (if is_empty body
            then []
            else codes " body=" ++ (write_truncated body log.max_body_length).1))
    else []

unfoldable pub knxd_send : Bytes → Bytes → Bytes → Bytes → DebugLog → Bytes
knxd_send time operation address details log =
    if log.enabled
    then line time (
        codes "  "
        ++ to_right
        ++ codes " KNXD SEND: "
        ++ operation
        ++ codes " addr="
        ++ address
        ++ labelled (codes " ") details)
    else []

unfoldable pub knxd_recv : Bytes → Bytes → Bytes → Bytes → DebugLog → Bytes
knxd_recv time operation address received log =
    if log.enabled
    then line time (
        codes "  "
        ++ to_left
        ++ codes " KNXD RECV: "
        ++ operation
        ++ codes " addr="
        ++ address
        ++ labelled (codes " data=") received)
    else []

length-cut :
    (front label digits end : Bytes)
    → length (front ++ label ++ digits ++ end)
      ≡ length front + length label + length digits + length end
length-cut front label digits end =
    length-append ((front ++ label) ++ digits) end
    ∙ ap (λ n. n + length end)
        (length-append (front ++ label) digits
          ∙ ap (λ n. n + length digits) (length-append front label))

-- A text is cut to the limit, where there is one.
pub write_truncated-length :
    (text : Bytes) (max_len : ℕ)
    → 0 < max_len
    → length (write_truncated text max_len).1 ≤ max_len + 29 + length (to_decimal (length text))
unfolding write_truncated
write_truncated-length text max_len h =
    let other : (max_len == 0) ≡ false = ground arith in
    elim (Bool-cases (leb (length text) max_len)) [
      | inl e ↦ rw (other, e) (ground arith)
      | inr e ↦
          let cut =
            length-cut (take max_len text) (codes "... (truncated, ") (to_decimal (length text))
              (codes " chars total)") in
          let front = length-take max_len text in rw (other, e) (omega arith)
    ]

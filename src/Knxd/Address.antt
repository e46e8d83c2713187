-- ===== src/Knxd/Address.antt =====
-- KnxGroupAddress and KnxAddress of src/knxd/knxd_protocol.{h,cpp}.
pub mod Word
pub mod Text
pub mod Namespace
use Prim.Native.Nat.{bit_and, bit_or}
use cometvisu_knxd_fcgi.Prelude.{
  ℕ, suc, ◌+◌, ◌-◌, ◌*◌, ◌/◌, ◌%◌, ◌^◌, ◌<◌, ◌≤◌, Bool, ◌&&◌, Option, none, some, ◌>>=◌, [], ◌∷◌,
  ◌++◌, Bytes, codes, ltb, leb, ◌==◌, if◌then◌else◌, is_empty,
}
use cometvisu_knxd_fcgi.Prelude.Decimal.{to_decimal}

pub record KnxGroupAddress : Type 0 where
  pub main : ℕ
  pub middle : ℕ
  pub sub : ℕ

abbrev pub is_digit : ℕ → Bool
is_digit c = leb b'0' c && leb c b'9'

-- The `while` of `parse_part`: the value and the unread text, or `none` for `return false`. The
-- value stays below 10 * max_val + 10, so the `int` does not overflow.
unfoldable pub part_digits : ℕ → ℕ → Bytes → Option (ℕ × Bytes)
part_digits max_val val [] = some (val, [])
part_digits max_val val (c ∷ s) =
    let next = part_digits max_val (val * 10 + (c - b'0')) s in
    if is_digit c
    then if ltb max_val (val * 10 + (c - b'0')) then none else next
    else some (val, c ∷ s)

-- The lambda `parse_part`; the pointer `p` is the unread text.
unfoldable pub parse_part : ℕ → Bytes → Option (ℕ × Bytes)
parse_part max_val [] = none
parse_part max_val (c ∷ s) = if is_digit c then part_digits max_val 0 (c ∷ s) else none

-- `if (p >= end || *p != '/') return nullopt; ++p;`
unfoldable pub skip_slash : Bytes → Option Bytes
skip_slash [] = none
skip_slash (c ∷ s) = if c == b'/' then some s else none

-- `if (p != end) return nullopt;`
unfoldable pub at_end : KnxGroupAddress → Bytes → Option KnxGroupAddress
at_end addr [] = some addr
at_end addr (_ ∷ _) = none

unfoldable pub from_string : Bytes → Option KnxGroupAddress
unfolding skip_slash at_end
from_string str = do
  (main, s₁) ← parse_part 31 str
  s₂ ← skip_slash s₁
  (middle, s₃) ← parse_part 7 s₂
  s₄ ← skip_slash s₃
  (sub, s₅) ← parse_part 255 s₄
  at_end (record { main = main; middle = middle; sub = sub }) s₅

unfoldable pub to_string : KnxGroupAddress → Bytes
to_string g = to_decimal g.main ++ b'/' ∷ (to_decimal g.middle ++ b'/' ∷ to_decimal g.sub)

-- `(main << 11) | (middle << 8) | sub`, cast to 16 bits
unfoldable pub to_eibaddr : KnxGroupAddress → ℕ
to_eibaddr g = bit_or (bit_or (g.main * 2 ^ 11) (g.middle * 2 ^ 8)) g.sub % 2 ^ 16

unfoldable pub from_eibaddr : ℕ → KnxGroupAddress
from_eibaddr addr = record {
  main = bit_and (addr / 2 ^ 11) 0x1f;
  middle = bit_and (addr / 2 ^ 8) 0x07;
  sub = bit_and addr 0xff;
}

pub record KnxAddress : Type 0 where
  pub ns : Bytes
  pub group : KnxGroupAddress

-- `str.find(':')`, with the text before the colon and the text after it
unfoldable pub split_colon : Bytes → Option (Bytes × Bytes)
split_colon [] = none
split_colon (c ∷ s) =
    if c == b':'
    then some ([], s)
    else elim (split_colon s) [ none ↦ none | some (before, after) ↦ some (c ∷ before, after) ]

-- The static `default_namespace_` is the first argument.
unfoldable pub from_cometvisu : Bytes → Bytes → Option KnxAddress
from_cometvisu default_namespace str = elim (split_colon str) [
  | none ↦ do group ← from_string str; some (record { ns = default_namespace; group = group })
  | some (ns, rest) ↦ do group ← from_string rest; some (record { ns = ns; group = group })
]

unfoldable pub to_cometvisu : KnxAddress → Bytes
to_cometvisu a = if is_empty a.ns then to_string a.group else a.ns ++ b':' ∷ to_string a.group

-- The components that three-level addresses have.
pub record InRange (g : KnxGroupAddress) : Type 0 where
  pub main : g.main ≤ 31
  pub middle : g.middle ≤ 7
  pub sub : g.sub ≤ 255

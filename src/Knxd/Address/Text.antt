-- ===== src/Knxd/Address/Text.antt =====
-- Group addresses as text: `from_string` accepts exactly the three-level addresses in range.
use mathlib.Core.Path.{subst}
use cometvisu_knxd_fcgi.Prelude.{
  ℕ, ◌+◌, ◌-◌, ◌*◌, ◌≤◌, ◌<◌, ◌≡◌, refl, ◌↔◌, inl, inr, true, false, some, >>=-eq-some, [], ◌∷◌,
  ◌++◌, arith, Bytes, ltb, Bool-cases, length, append-nil, ap, ◌∙◌,
}
use cometvisu_knxd_fcgi.Prelude.Decimal.{
  to_decimal, digits_value, AllDigits, to_decimal-AllDigits, digits_value-to_decimal,
  length-to_decimal_pos, le-digits_value,
}
use cometvisu_knxd_fcgi.Knxd.Address.{
  KnxGroupAddress, is_digit, part_digits, parse_part, skip_slash, at_end, from_string, to_string,
  InRange,
}

-- A run of decimal digits that stands for `value`.
pub record Spells (digits : Bytes) (value : ℕ) : Type 0 where
  pub all_digits : AllDigits digits
  pub some_digit : 0 < length digits
  pub reads : digits_value 0 digits ≡ value

-- `str` is X/Y/Z, each part a run of digits that stands for a component in range.
pub record SpellsAddress (str : Bytes) (g : KnxGroupAddress) : Type 0 where
  pub x : Bytes
  pub y : Bytes
  pub z : Bytes
  pub text : str ≡ x ++ b'/' ∷ (y ++ b'/' ∷ z)
  pub main : Spells x g.main
  pub middle : Spells y g.middle
  pub sub : Spells z g.sub
  pub in_range : InRange g

-- The unread text does not go on with a digit.
abbrev Stops : Bytes → Type 0
Stops [] = Unit
Stops (c ∷ s) = is_digit c ≡ false

part_digits_complete :
    (m val : ℕ) (ds rest : Bytes)
    → AllDigits ds
    → Stops rest
    → digits_value val ds ≤ m
    → part_digits m val (ds ++ rest) ≡ some (digits_value val ds, rest)
unfolding part_digits
part_digits_complete m val [] [] d st h = refl
part_digits_complete m val [] (c ∷ rest) d st h = rw st
part_digits_complete m val (c ∷ ds) rest d st h = ground (
  arith,
  le-digits_value ds (val * 10 + (c - b'0')),
  part_digits_complete m (val * 10 + (c - b'0')) ds rest d.1 st,
)

parse_part_complete :
    (m value : ℕ) (ds rest : Bytes)
    → Spells ds value
    → Stops rest
    → value ≤ m
    → parse_part m (ds ++ rest) ≡ some (value, rest)
unfolding parse_part
parse_part_complete m value [] rest sp st h = absurd (omega (arith, sp.some_digit))
parse_part_complete m value (c ∷ ds) rest sp st h =
    let digit : is_digit c ≡ true = ground (arith, sp.all_digits.0) in
    rw digit
      (rw (part_digits_complete m 0 (c ∷ ds) rest sp.all_digits st (rw sp.reads h), sp.reads))

from_string_complete :
    (str : Bytes) (g : KnxGroupAddress) → SpellsAddress str g → from_string str ≡ some g
unfolding from_string
from_string_complete str g a =
    let tail = a.y ++ b'/' ∷ a.z in
    let r = a.in_range in
    let p₁ = parse_part_complete 31 g.main a.x (b'/' ∷ tail) a.main refl r.main in
    let p₂ = parse_part_complete 7 g.middle a.y (b'/' ∷ a.z) a.middle refl r.middle in
    let p₃ : parse_part 255 a.z ≡ some (g.sub, []) =
      rw append-nil at (parse_part_complete 255 g.sub a.z [] a.sub tt r.sub) in
    rw (a.text, p₁, p₂, p₃)

to_decimal-Spells : (n : ℕ) → Spells (to_decimal n) n
to_decimal-Spells n = record {
  all_digits = to_decimal-AllDigits n;
  some_digit = length-to_decimal_pos n;
  reads = digits_value-to_decimal n;
}

-- What a successful reading of a part has consumed.
record Consumed (limit val v : ℕ) (s rest : Bytes) : Type 0 where
  digits : Bytes
  all_digits : AllDigits digits
  text : s ≡ digits ++ rest
  reads : digits_value val digits ≡ v
  limited : v ≤ limit

Consumed-cons :
    {m val v c : ℕ} {s rest : Bytes}
    → is_digit c ≡ true
    → Consumed m (val * 10 + (c - b'0')) v s rest
    → Consumed m val v (c ∷ s) rest
Consumed-cons {c} p k = record {
  digits = c ∷ k.digits;
  all_digits = (ground arith, k.all_digits);
  text = ap (λ t. c ∷ t) k.text;
  reads = k.reads;
  limited = k.limited;
}

part_digits_sound :
    (m val : ℕ) (s : Bytes) (v : ℕ) (rest : Bytes)
    → val ≤ m
    → part_digits m val s ≡ some (v, rest)
    → Consumed m val v s rest
unfolding part_digits
part_digits_sound m val [] v rest h e = record {
  digits = [];
  all_digits = tt;
  text = ground arith;
  reads = ground arith;
  limited = ground arith;
}
part_digits_sound m val (c ∷ s) v rest h e = elim (Bool-cases (is_digit c)) [
  | inr other ↦ record {
    digits = [];
    all_digits = tt;
    text = ground arith;
    reads = ground arith;
    limited = ground arith;
  }
  | inl digit ↦ elim (Bool-cases (ltb m (val * 10 + (c - b'0')))) [
    | inl over ↦ absurd (ground arith)
    | inr fits ↦
        Consumed-cons digit
          (part_digits_sound m (val * 10 + (c - b'0')) s v rest (ground arith) (ground arith))
  ]
]

first_digit :
    {m v c : ℕ} {s rest : Bytes}
    → is_digit c ≡ true
    → Consumed m (0 * 10 + (c - b'0')) v s rest
    → (ds : Bytes) × Spells ds v × (c ∷ s ≡ ds ++ rest) × (v ≤ m)
first_digit {c} digit k = (
  c ∷ k.digits,
  record { all_digits = (ground arith, k.all_digits); some_digit = omega arith; reads = k.reads },
  ap (λ t. c ∷ t) k.text,
  k.limited,
)

parse_part_sound :
    (m : ℕ) (s : Bytes) (v : ℕ) (rest : Bytes)
    → parse_part m s ≡ some (v, rest)
    → (ds : Bytes) × Spells ds v × (s ≡ ds ++ rest) × (v ≤ m)
unfolding parse_part part_digits
parse_part_sound m [] v rest e = absurd (ground arith)
parse_part_sound m (c ∷ s) v rest e =
    let digit : is_digit c ≡ true = ground arith in
    first_digit digit
      (part_digits_sound m (0 * 10 + (c - b'0')) s v rest (ground arith) (ground arith))

skip_slash_sound : (s rest : Bytes) → skip_slash s ≡ some rest → s ≡ b'/' ∷ rest
unfolding skip_slash
skip_slash_sound [] rest e = cc
skip_slash_sound (c ∷ s) rest e = ground arith

at_end_sound : (h g : KnxGroupAddress) (s : Bytes) → at_end h s ≡ some g → (s ≡ []) × (h ≡ g)
unfolding at_end
at_end_sound h g [] e = (refl, ground arith)
at_end_sound h g (_ ∷ _) e = cc

from_string_sound :
    (str : Bytes) (g : KnxGroupAddress) → from_string str ≡ some g → SpellsAddress str g
unfolding from_string
from_string_sound str g e =
    let ((main, s₁), e₁, r₁) = >>=-eq-some (parse_part 31 str) _ e in
    let (s₂, e₂, r₂) = >>=-eq-some (skip_slash s₁) _ r₁ in
    let ((middle, s₃), e₃, r₃) = >>=-eq-some (parse_part 7 s₂) _ r₂ in
    let (s₄, e₄, r₄) = >>=-eq-some (skip_slash s₃) _ r₃ in
    let ((sub, s₅), e₅, r₅) = >>=-eq-some (parse_part 255 s₄) _ r₄ in
    let (x, xs, xt, xm) = parse_part_sound 31 str main s₁ e₁ in
    let (y, ys, yt, ym) = parse_part_sound 7 s₂ middle s₃ e₃ in
    let (z, zs, zt, zm) = parse_part_sound 255 s₄ sub s₅ e₅ in
    let (done, same) = at_end_sound _ g s₅ r₅ in
    let address : KnxGroupAddress = record { main = main; middle = middle; sub = sub } in
    let read : SpellsAddress str address = record {
      x = x;
      y = y;
      z = z;
      text =
          xt
          ∙ ap (λ t. x ++ t) (skip_slash_sound s₁ s₂ e₂)
          ∙ ap (λ t. x ++ b'/' ∷ t) yt
          ∙ ap (λ t. x ++ b'/' ∷ (y ++ t)) (skip_slash_sound s₃ s₄ e₄)
          ∙ ap (λ t. x ++ b'/' ∷ (y ++ b'/' ∷ t)) (zt ∙ ap (λ t. z ++ t) done ∙ append-nil z);
      main = xs;
      middle = ys;
      sub = zs;
      in_range = record { main = xm; middle = ym; sub = zm };
    } in
    subst (SpellsAddress str) same read

-- `from_string` accepts a text as an address exactly when it is three runs of decimal digits with
-- slashes between them that stand for the components, each within its limit.
pub from_string_iff :
    (str : Bytes) (g : KnxGroupAddress) → (from_string str ≡ some g) ↔ SpellsAddress str g
from_string_iff str g = (from_string_sound str g, from_string_complete str g)

-- The text of an address in range is read back as that address.
pub from_string-to_string : (g : KnxGroupAddress) → InRange g → from_string (to_string g) ≡ some g
unfolding to_string
from_string-to_string g r = from_string_complete (to_string g) g (record {
  x = to_decimal g.main;
  y = to_decimal g.middle;
  z = to_decimal g.sub;
  text = refl;
  main = to_decimal-Spells g.main;
  middle = to_decimal-Spells g.middle;
  sub = to_decimal-Spells g.sub;
  in_range = r;
})

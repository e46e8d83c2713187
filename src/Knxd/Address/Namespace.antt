-- ===== src/Knxd/Address/Namespace.antt =====
-- Addresses with a namespace prefix, `NAMESPACE:X/Y/Z`.
use cometvisu_knxd_fcgi.Prelude.{
  ℕ, ◌≡◌, refl, ◌≢◌, some, none, [], ◌∷◌, ◌++◌, arith, Bytes, if◌then◌else◌, is_empty, All,
  All-append,
}
use cometvisu_knxd_fcgi.Prelude.Decimal.{to_decimal, AllDigits, to_decimal-AllDigits}
use cometvisu_knxd_fcgi.Knxd.Address.{
  KnxGroupAddress, KnxAddress, split_colon, to_string, from_cometvisu, to_cometvisu, InRange,
}
use cometvisu_knxd_fcgi.Knxd.Address.Text.{from_string-to_string}

abbrev pub NoColon : Bytes → Type 0
NoColon = All λ c. c ≢ b':'

AllDigits-NoColon : (s : Bytes) → AllDigits s → NoColon s
AllDigits-NoColon [] d = tt
AllDigits-NoColon (c ∷ s) (p, d) = (omega arith, AllDigits-NoColon s d)

to_string-NoColon : (g : KnxGroupAddress) → NoColon (to_string g)
unfolding to_string
to_string-NoColon g =
    let part = λ (n : ℕ). AllDigits-NoColon (to_decimal n) (to_decimal-AllDigits n) in
    All-append _ (to_decimal g.main) _ (part g.main)
      (omega arith, All-append _ (to_decimal g.middle) _ (part g.middle) (omega arith, part g.sub))

split_colon-none : (s : Bytes) → NoColon s → split_colon s ≡ none
unfolding split_colon
split_colon-none [] h = refl
split_colon-none (c ∷ s) (p, h) = ground (arith, split_colon-none s h)

split_colon-append :
    (ns rest : Bytes) → NoColon ns → split_colon (ns ++ b':' ∷ rest) ≡ some (ns, rest)
unfolding split_colon
split_colon-append [] rest h = refl
split_colon-append (c ∷ ns) rest (p, h) = ground (arith, split_colon-append ns rest h)

read_written :
    (d ns : Bytes) (g : KnxGroupAddress)
    → InRange g
    → NoColon ns
    → from_cometvisu d (to_cometvisu (record { ns = ns; group = g }))
      ≡ some (record { ns = if is_empty ns then d else ns; group = g })
unfolding from_cometvisu to_cometvisu
read_written d [] g r h = rw (
  split_colon-none (to_string g) (to_string-NoColon g),
  from_cometvisu,
  from_string-to_string g r,
)
read_written d (c ∷ ns) g r h =
    rw (split_colon-append (c ∷ ns) (to_string g) h, from_cometvisu, from_string-to_string g r)

-- The text of an address in range whose namespace has no colon is read back as that address. An
-- empty namespace is not written, so the reader puts its default namespace in.
pub from_cometvisu-to_cometvisu :
    (default_namespace : Bytes) (a : KnxAddress)
    → InRange a.group
    → NoColon a.ns
    → from_cometvisu default_namespace (to_cometvisu a)
      ≡ some (record a { ns = if is_empty a.ns then default_namespace else a.ns })
from_cometvisu-to_cometvisu d a r h = read_written d a.ns a.group r h

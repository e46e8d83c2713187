-- ===== src/Tests/Knxd.antt =====
-- Runs of the models of src/knxd, and instances of their theorems.
use cometvisu_knxd_fcgi.Prelude.{◌≡◌, refl, ◌++◌, some, none, [], ◌∷◌, codes, arith, ◌↔◌}
use cometvisu_knxd_fcgi.Knxd.Address.{
  KnxGroupAddress, KnxAddress, InRange, from_string, to_eibaddr, from_cometvisu, to_cometvisu,
  parse_part, part_digits,
}
use cometvisu_knxd_fcgi.Knxd.Address.Text.{from_string_iff, SpellsAddress}
use cometvisu_knxd_fcgi.Knxd.Address.Namespace.{from_cometvisu-to_cometvisu}
use cometvisu_knxd_fcgi.Knxd.Message.{
  build_eibd_message, parse_eibd_message, try_extract_message, parsed,
}
use cometvisu_knxd_fcgi.Knxd.Message.Framing.{receive-build_eibd_message}

abbrev sample : KnxGroupAddress
sample = record { main = 1; middle = 2; sub = 3 }

sample-InRange : InRange sample
sample-InRange = record { main = omega arith; middle = omega arith; sub = omega arith }

reads_sample : from_string (codes "1/2/3") ≡ some sample
unfolding from_string parse_part part_digits
reads_sample = refl

refuses_large : from_string (codes "32/0/0") ≡ none
unfolding from_string parse_part part_digits
refuses_large = refl

word_sample : to_eibaddr sample ≡ 0x0a03
unfolding to_eibaddr
word_sample = refl

abbrev prefixed : KnxAddress
prefixed = record { ns = codes "KNX"; group = sample }

from_cometvisu-to_cometvisu_example : from_cometvisu [] (to_cometvisu prefixed) ≡ some prefixed
from_cometvisu-to_cometvisu_example =
    from_cometvisu-to_cometvisu [] prefixed sample-InRange (omega arith)

receive-build_eibd_message_example :
    (try_extract_message (build_eibd_message 0x26 (1 ∷ 2 ∷ []) ++ 0 ∷ [])
      ≡ (some (build_eibd_message 0x26 (1 ∷ 2 ∷ [])), 0 ∷ []))
    × (parse_eibd_message (build_eibd_message 0x26 (1 ∷ 2 ∷ [])) ≡ parsed 0x26 (1 ∷ 2 ∷ []))
receive-build_eibd_message_example =
    receive-build_eibd_message 0x26 (1 ∷ 2 ∷ []) (0 ∷ []) (omega arith) (omega arith)

from_string_iff_example :
    (from_string (codes "1/2/3") ≡ some sample) ↔ SpellsAddress (codes "1/2/3") sample
from_string_iff_example = from_string_iff (codes "1/2/3") sample

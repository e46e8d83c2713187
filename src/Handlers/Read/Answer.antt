-- ===== src/Handlers/Read/Answer.antt =====
-- The text that src/handlers/read_handler.cpp answers.
use cometvisu_knxd_fcgi.Prelude.Int.{ℤ, pos}
use cometvisu_knxd_fcgi.Prelude.Decimal.{to_decimal}
use cometvisu_knxd_fcgi.Util.JsonBuilder.{
  JsonBuilder, quoted, start_object, new_builder, append_text, add_comma, add_quoted, add_number,
  end_object, add_raw,
}
use cometvisu_knxd_fcgi.Util.JsonBuilder.Members.{
  member, object_text, add_members, add_string-member, add_members-append, buffer-nested,
}
use cometvisu_knxd_fcgi.Util.Hex.{hex_encode}
use cometvisu_knxd_fcgi.State.GroupCache.{collect}
use cometvisu_knxd_fcgi.Handlers.Read.{
  Reading, Surroundings, start_reading, addr_key, add_value, contains, set_insert, initial_values,
  delta_values, finish_body, cached,
}
use cometvisu_knxd_fcgi.Prelude.{
  ℕ, ◌≡◌, refl, sym, ap, ◌∙◌, ◌||◌, List, [], ◌∷◌, ◌++◌, arith, Bytes, ◌==◌, codes, false,
  append_assoc, inl, inr, Option-cases, append-nil,
}

-- The members of "d": the addresses with their values in hexadecimal.
abbrev pub value_members : Bytes → List (ℕ × Bytes) → List Bytes
value_members default [] = []
value_members default ((addr, value) ∷ values) =
    member (addr_key default addr) (quoted (hex_encode value)) ∷ value_members default values

-- The answer with these values and this position.
abbrev pub read_text : Bytes → List (ℕ × Bytes) → ℕ → Bytes
read_text default values position = object_text (
    member (codes "d") (object_text (value_members default values))
    ∷ member (codes "i") (to_decimal position)
    ∷ [])

abbrev pub keys : List (ℕ × Bytes) → List ℕ
keys [] = []
keys ((addr, _) ∷ values) = addr ∷ keys values

-- The values are those in the text.
pub record Shows (default : Bytes) (values : List (ℕ × Bytes)) (r : Reading) : Type 0 where
  pub json : r.json ≡ add_members (value_members default values) (start_reading 0).json
  pub written : (a : ℕ) → contains a r.already_written ≡ contains a (keys values)

pub Shows-start : (default : Bytes) (lastpos : ℕ) → Shows default [] (start_reading lastpos)
unfolding contains
Shows-start default lastpos = record { json = refl; written = λ a. refl }

pub Shows-moved :
    (default : Bytes) (values : List (ℕ × Bytes)) (p : ℕ) (r : Reading)
    → Shows default values r
    → Shows default values (record r { lastpos = p })
Shows-moved default values p r s = record { json = s.json; written = s.written }

contains-set_insert :
    (x a : ℕ) (s : List ℕ) → contains x (set_insert a s) ≡ (x == a || contains x s)
unfolding contains set_insert
contains-set_insert x a [] = refl
contains-set_insert x a (b ∷ s) = ground (arith, contains-set_insert x a s)

value_members-append :
    (default : Bytes) (values more : List (ℕ × Bytes))
    → value_members default (values ++ more)
      ≡ value_members default values ++ value_members default more
value_members-append default [] more = refl
value_members-append default ((addr, value) ∷ values) more =
    ap (λ ms. member (addr_key default addr) (quoted (hex_encode value)) ∷ ms)
      (value_members-append default values more)

contains-keys :
    (x a : ℕ) (v : Bytes) (values : List (ℕ × Bytes))
    → contains x (keys (values ++ (a, v) ∷ [])) ≡ (x == a || contains x (keys values))
unfolding contains
contains-keys x a v [] = refl
contains-keys x a v ((b, _) ∷ values) = ground (arith, contains-keys x a v values)

add_value-Shows :
    (default : Bytes) (values : List (ℕ × Bytes)) (a : ℕ) (v : Bytes) (r : Reading)
    → Shows default values r
    → Shows default (values ++ (a, v) ∷ []) (add_value default (a, v) r)
unfolding add_value
add_value-Shows default values a v r s = record {
  json =
      add_string-member (addr_key default a) (hex_encode v) r.json
      ∙ rw (
        s.json,
        value_members-append default values ((a, v) ∷ []),
        add_members-append (value_members default values) (value_members default ((a, v) ∷ [])),
      );
  written =
      λ x. rw (contains-set_insert x a r.already_written, s.written x, contains-keys x a v values);
}

reassociate :
    (a b c d e f : Bytes) → ((((a ++ b) ++ c) ++ d) ++ e) ++ f ≡ a ++ (b ++ ((c ++ (d ++ e)) ++ f))
reassociate a b c d e f = simp append_assoc

buffer-finish :
    (value : ℕ) (j : JsonBuilder) (text : Bytes)
    → j.buffer ≡ text
    → j.first ≡ false
    → (end_object (add_number (codes "i") (pos value) j)).buffer
      ≡ text ++ b',' ∷ (member (codes "i") (to_decimal value) ++ b'}' ∷ [])
unfolding end_object add_number append_text add_quoted add_comma
buffer-finish value j text e f =
    rw (f, e)
      (reassociate text (b',' ∷ []) (quoted (codes "i")) (b':' ∷ []) (to_decimal value) (b'}' ∷ []))

raw_first : (m : Bytes) → (add_raw m (start_object new_builder)).buffer ≡ b'{' ∷ m
unfolding add_raw append_text add_comma start_object
raw_first m = refl

two_members : (m n z : Bytes) → m ++ b',' ∷ (n ++ z) ≡ (m ++ b',' ∷ (n ++ [])) ++ z
two_members m n z = simp (append_assoc, append-nil)

-- The text of the answer.
pub finish_body-Shows :
    (default : Bytes) (values : List (ℕ × Bytes)) (r : Reading)
    → Shows default values r
    → finish_body r ≡ read_text default values r.lastpos
unfolding finish_body
finish_body-Shows default values r s =
    let text = b'{' ∷ member (codes "d") (object_text (value_members default values)) in
    let nested : (end_object r.json).buffer ≡ text = rw s.json (
      buffer-nested (codes "d") (value_members default values) (start_object new_builder)
      ∙ raw_first (member (codes "d") (object_text (value_members default values)))) in
    let ended : (end_object r.json).first ≡ false = unfold end_object in refl in
    buffer-finish r.lastpos (end_object r.json) text nested ended
    ∙ ap (λ b. b'{' ∷ b)
        (two_members (member (codes "d") (object_text (value_members default values)))
          (member (codes "i") (to_decimal r.lastpos)) (b'}' ∷ []))

pub initial_values-Shows :
    (default : Bytes) (e : Surroundings) (max_age_sec : ℤ) (addrs : List ℕ)
    (values : List (ℕ × Bytes)) (r : Reading)
    → Shows default values r
    → Shows default
        (values ++ collect (cached e max_age_sec) addrs)
        (initial_values default e max_age_sec addrs r)
unfolding collect initial_values
initial_values-Shows default e m [] values r s = rw (append-nil values) s
initial_values-Shows default e m (a ∷ addrs) values r s = elim (Option-cases (cached e m a)) [
  | inl absent ↦
      rw (initial_values, collect, absent) (initial_values-Shows default e m addrs values r s)
  | inr (v, found) ↦
      rw
        (
          initial_values,
          collect,
          found,
          sym (append_assoc values ((a, v) ∷ []) (collect (cached e m) addrs)),
        )
        (initial_values-Shows default e m addrs (values ++ (a, v) ∷ []) (add_value default (a, v) r)
          (add_value-Shows default values a v r s))
]

-- No address has two values.
abbrev pub Distinct : List (ℕ × Bytes) → Type 0
Distinct [] = Unit {0}
Distinct ((a, _) ∷ values) = (contains a (keys values) ≡ false) × Distinct values

-- None of these addresses is in the other list.
abbrev pub Apart : List (ℕ × Bytes) → List (ℕ × Bytes) → Type 0
Apart values [] = Unit {0}
Apart values ((a, _) ∷ more) = (contains a (keys values) ≡ false) × Apart values more

Apart-snoc :
    (values more : List (ℕ × Bytes)) (a : ℕ) (v : Bytes)
    → Apart values more
    → contains a (keys more) ≡ false
    → Apart (values ++ (a, v) ∷ []) more
unfolding contains
Apart-snoc values [] a v apart h = tt
Apart-snoc values ((b, _) ∷ more) a v (p, apart) h = (
  rw (contains-keys b a v values) (ground arith),
  Apart-snoc values more a v apart (ground arith),
)

pub delta_values-Shows :
    (default : Bytes) (more values : List (ℕ × Bytes)) (r : Reading)
    → Shows default values r
    → Apart values more
    → Distinct more
    → Shows default (values ++ more) (delta_values default more r)
unfolding delta_values
delta_values-Shows default [] values r s apart distinct = rw (append-nil values) s
delta_values-Shows default ((a, v) ∷ more) values r s (p, apart) (q, distinct) =
    rw (s.written a, p, sym (append_assoc values ((a, v) ∷ []) more))
      (delta_values-Shows default more (values ++ (a, v) ∷ []) (add_value default (a, v) r)
        (add_value-Shows default values a v r s) (Apart-snoc values more a v apart q) distinct)

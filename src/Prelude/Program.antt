-- ===== src/Prelude/Program.antt =====
-- Code that changes a state and may run out of fuel: `none` means that it did.
use mathlib.Core.Option.{Option, none, some}

abbrev pub Program : Type 0 → Type 0 → Type 0
Program S A = S → Option (A × S)

infixl 5 ◌>>=◌ ◌>>◌
abbrev pub ◌>>=◌ : {S A B : Type 0} → Program S A → (A → Program S B) → Program S B
◌>>=◌ m next s = elim (m s) [ none ↦ none | some (a, s') ↦ next a s' ]

abbrev pub ◌>>◌ : {S A B : Type 0} → Program S A → Program S B → Program S B
m >> k = m >>= λ _. k

module _ {S A : Type 0} where
  abbrev pub give : A → Program S A
  give a s = some (a, s)

  -- A call that always ends.
  abbrev pub run : (S → A × S) → Program S A
  run f s = some (f s)

  abbrev pub ask : (S → A) → Program S A
  ask f s = some (f s, s)

abbrev pub change : {S : Type 0} → (S → S) → Program S (Unit {0})
change f s = some (tt, f s)

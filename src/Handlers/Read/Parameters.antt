-- ===== src/Handlers/Read/Parameters.antt =====
-- The parameters of a request to /r: `parse_timeout` of src/handlers/read_handler.cpp, and what `handle`
-- takes from `t` and `i`.
pub mod Numbers
use cometvisu_knxd_fcgi.Prelude.Int.{ℤ, pos, negsuc}
use cometvisu_knxd_fcgi.Prelude.Decimal.{digits_value}
use cometvisu_knxd_fcgi.Knxd.Address.{is_digit}
use cometvisu_knxd_fcgi.Util.QueryString
use cometvisu_knxd_fcgi.Util.QueryString.{Params}
use cometvisu_knxd_fcgi.Prelude.{
  ℕ, zero, suc, ◌-◌, ◌^◌, Bool, true, false, ◌&&◌, not, Option, none, some, [], ◌∷◌, Bytes, leb,
  ◌==◌, if◌then◌else◌, codes, is_empty,
}

unfoldable pub all_digits : Bytes → Bool
all_digits [] = true
all_digits (c ∷ s) = is_digit c && all_digits s

-- Digits that are a number of at most `limit`.
unfoldable pub bounded_number : ℕ → Bytes → Option ℕ
bounded_number limit s =
    if not (is_empty s) && (all_digits s && leb (digits_value 0 s) limit)
    then some (digits_value 0 s)
    else none

abbrev pub positive : Option ℕ → Option ℤ
positive none = none
positive (some n) = some (pos n)

abbrev pub negative : Option ℕ → Option ℤ
negative none = none
negative (some zero) = some (pos 0)
negative (some (suc n)) = some (negsuc n)

-- `std::from_chars` on an `int` takes digits behind at most a minus sign; the whole text has to be read.
unfoldable pub parse_timeout : Bytes → Option ℤ
parse_timeout [] = none
parse_timeout (c ∷ s) =
    if c == b'-'
    then negative (bounded_number (2 ^ 31) s)
    else positive (bounded_number (2 ^ 31 - 1) (c ∷ s))

-- The parameter `t`: absent, not a number, or `t_original`.
pub data Timeout : Type 0 where
  not_provided invalid : Timeout
  provided : ℤ → Timeout

abbrev pub timeout_of : Option ℤ → Timeout
timeout_of none = invalid
timeout_of (some t) = provided t

unfoldable pub read_timeout : Params → Timeout
read_timeout params = elim (QueryString.get (codes "t") params) [
  | none ↦ not_provided
  | some t ↦ timeout_of (parse_timeout t)
]

-- The parameter `i`; 0 when it is absent, invalid or negative.
abbrev pub position_of : Option ℤ → ℕ
position_of (some (pos n)) = n
position_of _ = 0

unfoldable pub read_position : Params → ℕ
read_position params = elim (QueryString.get (codes "i") params) [
  | none ↦ 0
  | some i ↦ position_of (parse_timeout i)
]

-- `timeout_sec`, `max_age_sec`, `lastpos`, and whether `t_provided && t_original == 0`.
pub record Plan : Type 0 where
  pub timeout_sec : ℤ
  pub max_age_sec : ℤ
  pub lastpos : ℕ
  pub from_bus : Bool

-- From the age filter to "t=0: force initial read".
unfoldable pub plan_read : ℤ → ℕ → Timeout → Option Plan
plan_read longpoll_timeout_sec i not_provided = some (record {
  timeout_sec = longpoll_timeout_sec;
  max_age_sec = negsuc 0;
  lastpos = i;
  from_bus = false;
})
plan_read longpoll_timeout_sec i invalid = none
plan_read longpoll_timeout_sec i (provided (pos zero)) =
    some (record { timeout_sec = pos 1; max_age_sec = negsuc 0; lastpos = 0; from_bus = true })
plan_read longpoll_timeout_sec i (provided (pos (suc n))) =
    some (record {
      timeout_sec = pos (suc n);
      max_age_sec = pos (suc n);
      lastpos = i;
      from_bus = false;
    })
plan_read longpoll_timeout_sec i (provided (negsuc _)) =
    some (record { timeout_sec = pos 0; max_age_sec = negsuc 0; lastpos = 0; from_bus = false })

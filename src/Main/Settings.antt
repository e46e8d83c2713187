-- ===== src/Main/Settings.antt =====
-- The settings of src/main.cpp: `parse_env_int` with `strtol`, `get_env_default`, and what `main` decides by
-- them before it serves. An environment is a function from names to values.
pub mod Numbers
use cometvisu_knxd_fcgi.Prelude.Int.{ℤ, pos, negsuc}
use cometvisu_knxd_fcgi.Prelude.Decimal.{digits_value}
use cometvisu_knxd_fcgi.Knxd.Address.{is_digit}
use cometvisu_knxd_fcgi.Fcgi.Server.{leading_digits}
use cometvisu_knxd_fcgi.Prelude.{
  ℕ, zero, suc, ◌-◌, ◌%◌, ◌^◌, min, Bool, true, false, ◌&&◌, ◌||◌, Option, none, some, List, [],
  ◌∷◌, Bytes, ltb, leb, ◌==◌, if◌then◌else◌, length, bytes_eq, codes, drop, is_empty,
}

-- `isspace` in the C locale.
unfoldable pub is_space : ℕ → Bool
is_space c = (c == 32) || (leb 9 c && leb c 13)

unfoldable pub skip_spaces : Bytes → Bytes
skip_spaces [] = []
skip_spaces (c ∷ s) = let rest = skip_spaces s in if is_space c then rest else c ∷ s

-- The numbers of `long`, to which `strtol` clamps.
abbrev pub long_max : ℕ
long_max = 2 ^ 63 - 1

unfoldable pub to_long : Bool → ℕ → ℤ
to_long false n = pos (min n long_max)
to_long true zero = pos 0
to_long true (suc n) = negsuc (min n long_max)

-- The digits after the sign, with the rest of the text; `none` where there are none (`end == val`).
unfoldable pub scan_number : Bool → Bytes → Option (ℤ × Bytes)
scan_number negative s =
    let digits = leading_digits s in
    if is_empty digits
    then none
    else some (to_long negative (digits_value 0 digits), drop (length digits) s)

unfoldable pub scan_sign : Bytes → Option (ℤ × Bytes)
scan_sign [] = none
scan_sign (c ∷ s) =
    if c == b'-'
    then scan_number true s
    else if c == b'+'
    then scan_number false s
    else scan_number false (c ∷ s)

-- `std::strtol(val, &end, 10)`
unfoldable pub strtol : Bytes → Option (ℤ × Bytes)
strtol s = scan_sign (skip_spaces s)

-- `raw < static_cast<int64_t>(min_val)` for a bound that is not negative.
unfoldable pub is_below : ℤ → ℕ → Bool
is_below (pos n) m = ltb n m
is_below (negsuc n) m = true

-- `static_cast<int>(raw)` of a `long` that is not negative.
unfoldable pub to_int : ℕ → ℤ
to_int n = let w = n % 2 ^ 32 in if ltb w (2 ^ 31) then pos w else negsuc (2 ^ 32 - 1 - w)

-- `if (result > max_val) return max_val`
unfoldable pub at_most : ℕ → ℤ → ℤ
at_most m (pos n) = pos (min n m)
at_most m (negsuc n) = negsuc n

abbrev pub checked_number : ℕ → ℕ → ℕ → Option (ℤ × Bytes) → ℤ
checked_number default_val min_val max_val none = pos default_val
checked_number default_val min_val max_val (some (pos n, [])) =
    if ltb n min_val then pos default_val else at_most max_val (to_int n)
checked_number default_val min_val max_val (some (negsuc n, [])) = pos default_val
checked_number default_val min_val max_val (some (raw, c ∷ rest)) = pos default_val

-- `parse_env_int`, by the value in the environment.
unfoldable pub parse_env_int : Option Bytes → ℕ → ℕ → ℕ → ℤ
parse_env_int none default_val min_val max_val = pos default_val
parse_env_int (some []) default_val min_val max_val = pos default_val
parse_env_int (some (c ∷ s)) default_val min_val max_val =
    checked_number default_val min_val max_val (strtol (c ∷ s))

-- `get_env_default`
unfoldable pub get_env_default : Option Bytes → Bytes → Bytes
get_env_default none default_value = default_value
get_env_default (some []) default_value = default_value
get_env_default (some (c ∷ s)) default_value = c ∷ s

-- `kMaxLongpollTimeoutSec`
abbrev pub max_longpoll_timeout_sec : ℕ
max_longpoll_timeout_sec = 3600

-- "Configuration"
pub record Config : Type 0 where
  pub knxd_socket : Bytes
  pub longpoll_timeout : ℤ
  pub num_workers : ℤ
  pub address_prefix : Bytes
  pub base_url : Bytes
  pub fcgi_socket : Bytes

unfoldable pub config : (Bytes → Option Bytes) → Config
config getenv = record {
  knxd_socket = get_env_default (getenv (codes "KNXD_SOCKET")) (codes "/run/knx");
  longpoll_timeout =
      parse_env_int (getenv (codes "LONGPOLL_TIMEOUT_SEC")) 300 1 max_longpoll_timeout_sec;
  num_workers = parse_env_int (getenv (codes "FCGI_WORKERS")) 20 1 256;
  address_prefix = get_env_default (getenv (codes "ADDRESS_PREFIX")) [];
  base_url = elim (getenv (codes "BASE_URL")) [ none ↦ [] | some url ↦ url ];
  fcgi_socket = get_env_default (getenv (codes "FCGI_SOCKET")) [];
}

-- What `main` goes on with: it prints a text and ends, it fails, or it serves.
pub data Launch : Type 0 where
  show_version show_help failed : Launch
  serve_pool serve_single : Config → Launch

-- The first argument.
unfoldable pub flag : Bytes → Option Launch
flag arg =
    if bytes_eq arg (codes "--version") || bytes_eq arg (codes "-v")
    then some Launch.show_version
    else if bytes_eq arg (codes "--help") || bytes_eq arg (codes "-h")
    then some Launch.show_help
    else none

-- The listen socket, where one is set, then the shared cache, then the mode.
unfoldable pub start : (Bytes → Bool) → Bool → Config → Launch
start listen created c =
    let mode = if is_empty c.fcgi_socket then Launch.serve_single c else Launch.serve_pool c in
    if is_empty c.fcgi_socket || listen c.fcgi_socket
    then if created then mode else Launch.failed
    else Launch.failed

abbrev pub after_flags : (Bytes → Option Bytes) → (Bytes → Bool) → Bool → Option Launch → Launch
after_flags getenv listen created (some launch) = launch
after_flags getenv listen created none = start listen created (config getenv)

-- `main` up to the start of the pool: `listen` and `created` say whether the calls succeed.
unfoldable pub launch : List Bytes → (Bytes → Option Bytes) → (Bytes → Bool) → Bool → Launch
launch [] getenv listen created = start listen created (config getenv)
launch (arg ∷ args) getenv listen created = after_flags getenv listen created (flag arg)

-- ===== src/Fcgi/Server.antt =====
-- src/fcgi/fcgi_server.cpp: the capacity limits, the reading of a request and the text of a response. The
-- environment of the request and the stream of its body come from libfcgi and are arguments.
pub mod Holding
pub mod Capacity
pub mod Body
pub mod Library
pub mod Running
use cometvisu_knxd_fcgi.Prelude.Int.{ℤ}
use cometvisu_knxd_fcgi.Prelude.Decimal.{to_decimal, digits_value}
use cometvisu_knxd_fcgi.Knxd.Address.{is_digit}
use cometvisu_knxd_fcgi.Fcgi.Request.{FcgiRequest, path}
use cometvisu_knxd_fcgi.Prelude.{
  ℕ, zero, suc, ◌-◌, ◌*◌, ◌^◌, min, Bool, true, false, ◌||◌, Option, none, some, List, [], ◌∷◌,
  ◌++◌, Bytes, leb, ◌==◌, if◌then◌else◌, length, bytes_eq, codes,
}

pub record FcgiResponse : Type 0 where
  pub status_code : ℕ
  pub content_type : Bytes
  pub body : Bytes

-- A response with the default content type.
abbrev pub json_response : ℕ → Bytes → FcgiResponse
json_response status body = record {
  status_code = status;
  content_type = codes "application/json";
  body = body;
}

abbrev pub crlf : Bytes
crlf = 13 ∷ 10 ∷ []

-- What `write_response` writes.
unfoldable pub response_text : FcgiResponse → Bytes
response_text r =
    codes "Status: "
    ++ to_decimal r.status_code
    ++ crlf
    ++ codes "Content-Type: "
    ++ r.content_type
    ++ codes "; charset=utf-8"
    ++ crlf
    ++ codes "Content-Length: "
    ++ to_decimal (length r.body)
    ++ crlf
    ++ crlf
    ++ r.body

-- `strncmp(*e, name, name_len) == 0 && (*e)[name_len] == '='`, with the value.
unfoldable pub env_value : Bytes → Bytes → Option Bytes
env_value [] [] = none
env_value [] (c ∷ entry) = if c == b'=' then some entry else none
env_value (b ∷ name) [] = none
env_value (b ∷ name) (c ∷ entry) = let rest = env_value name entry in if b == c then rest else none

-- `get_env`
unfoldable pub get_env : List Bytes → Bytes → Option Bytes
get_env [] name = none
get_env (entry ∷ envp) name =
    let later = get_env envp name in elim (env_value name entry) [ some v ↦ some v | none ↦ later ]

unfoldable pub get_env_or_empty : List Bytes → Bytes → Bytes
get_env_or_empty envp name = elim (get_env envp name) [ some v ↦ v | none ↦ [] ]

-- `kMaxContentLength`
abbrev pub max_content_length : ℕ
max_content_length = 64 * 1024

-- The digits that a text starts with.
unfoldable pub leading_digits : Bytes → Bytes
leading_digits [] = []
leading_digits (c ∷ s) = let rest = leading_digits s in if is_digit c then c ∷ rest else []

-- `content_length`, capped; 0 where the body is skipped: no digits, a minus sign, 0, or a number above `int`.
unfoldable pub content_length : Bytes → ℕ
content_length s =
    let value = digits_value 0 (leading_digits s) in
    if leb value (2 ^ 31 - 1) then min value max_content_length else 0

module _ {S : Type 0} (fread : ℕ → S → Bytes × S) where
  -- The rest of the body after one call of `FCGI_fread`.
  abbrev pub after_fread : (ℕ → S → Bytes × S) → ℕ → Bytes × S → Bytes × S
  after_fread next missing ([], s) = ([], s)
  after_fread next missing (b ∷ bytes, s) =
      let (later, s') = next (missing - length (b ∷ bytes)) s in (b ∷ bytes ++ later, s')

  -- The loop, of which no more rounds are needed than bytes are missing.
  unfoldable pub read_content : ℕ → ℕ → S → Bytes × S
  read_content zero missing s = ([], s)
  read_content (suc rounds) zero s = ([], s)
  read_content (suc rounds) (suc missing) s =
      after_fread (read_content rounds) (suc missing) (fread (suc missing) s)

  abbrev pub with_content : FcgiRequest → Bytes × S → FcgiRequest × S
  with_content r (content, s) = (record r { content = content }, s)

  -- `read_request(envp)`; `none` is a null `envp`.
  unfoldable pub read_request : Option (List Bytes) → S → FcgiRequest × S
  read_request none s = (
    record {
      request_method = [];
      request_uri = [];
      query_string = [];
      content_type = [];
      content = [];
      script_name = [];
      path_info = [];
      server_protocol = [];
    },
    s,
  )
  read_request (some envp) s =
      let method = get_env_or_empty envp (codes "REQUEST_METHOD") in
      let missing = content_length (get_env_or_empty envp (codes "CONTENT_LENGTH")) in
      let req : FcgiRequest = record {
        request_method = method;
        request_uri = get_env_or_empty envp (codes "REQUEST_URI");
        query_string = get_env_or_empty envp (codes "QUERY_STRING");
        content_type = get_env_or_empty envp (codes "CONTENT_TYPE");
        content = [];
        script_name = get_env_or_empty envp (codes "SCRIPT_NAME");
        path_info = get_env_or_empty envp (codes "PATH_INFO");
        server_protocol = get_env_or_empty envp (codes "SERVER_PROTOCOL");
      } in
      if bytes_eq method (codes "POST") || bytes_eq method (codes "PUT")
      then with_content req (read_content missing missing s)
      else (req, s)

-- The values of the semaphores; `none` is a null pointer.
pub record Pool : Type 0 where
  pub concurrency : Option ℕ
  pub load_shed : Option ℕ

-- The tokens that a request holds, one `SemToken` each.
pub record Tokens : Type 0 where
  pub concurrency : Bool
  pub load_shed : Bool

abbrev pub no_tokens : Tokens
no_tokens = record { concurrency = false; load_shed = false }

-- `sem_trywait`, where there is a semaphore: whether the request goes on, whether it holds a token, and
-- the value.
unfoldable pub try_wait : Option ℕ → (Bool × Bool) × Option ℕ
try_wait none = ((true, false), none)
try_wait (some zero) = ((false, false), some zero)
try_wait (some (suc n)) = ((true, true), some n)

-- `SemToken::release`
unfoldable pub post : Bool → Option ℕ → Option ℕ
post true (some n) = some (suc n)
post _ sem = sem

-- What the destructors do.
unfoldable pub release : Tokens → Pool → Pool
release t p = record {
  concurrency = post t.concurrency p.concurrency;
  load_shed = post t.load_shed p.load_shed;
}

-- The request goes on, or it is answered at once, each with the tokens that it holds till its end.
pub data Admission : Type 0 where
  admitted : Tokens → Admission
  refused : FcgiResponse → Tokens → Admission

abbrev pub busy_response : FcgiResponse
busy_response = json_response 503 (codes "{\"error\":\"all workers busy\"}")

abbrev pub shed_response : FcgiResponse
shed_response = json_response 503 (codes "{\"error\":\"too many long-poll requests\"}")

-- The second semaphore, with the token of the first.
abbrev pub admit_load : Bool → Option ℕ → (Bool × Bool) × Option ℕ → Admission × Pool
admit_load token concurrency ((true, held), load_shed) = (
  admitted (record { concurrency = token; load_shed = held }),
  record { concurrency = concurrency; load_shed = load_shed },
)
admit_load token concurrency ((false, held), load_shed) = (
  refused shed_response (record { concurrency = token; load_shed = held }),
  record { concurrency = concurrency; load_shed = load_shed },
)

abbrev pub admit_concurrency : Option ℕ → (Bool × Bool) × Option ℕ → Admission × Pool
admit_concurrency load_shed ((true, held), concurrency) =
    admit_load held concurrency (try_wait load_shed)
admit_concurrency load_shed ((false, held), concurrency) = (
  refused busy_response (record { concurrency = held; load_shed = false }),
  record { concurrency = concurrency; load_shed = load_shed },
)

-- "Capacity limiting for long-poll reads only"
unfoldable pub admit : FcgiRequest → Pool → Admission × Pool
admit req p =
    if bytes_eq (path req) (codes "/r")
    then admit_concurrency p.load_shed (try_wait p.concurrency)
    else (admitted no_tokens, p)

-- `invoke_handler`; `none` is an exception.
unfoldable pub invoke_handler : Option FcgiResponse → FcgiResponse
invoke_handler (some resp) = resp
invoke_handler none = json_response 500 (codes "{\"error\":\"internal error\"}")

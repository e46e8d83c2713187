-- ===== src/Fcgi/Request.antt =====
-- src/fcgi/fcgi_request.{h,cpp}: the path of a request.
pub mod Path
use cometvisu_knxd_fcgi.Util.QueryString.{find_byte}
use cometvisu_knxd_fcgi.Prelude.{
  ℕ, ◌&&◌, not, Option, none, some, [], ◌∷◌, Bytes, leb, ◌==◌, if◌then◌else◌, length, bytes_eq,
  codes, take, drop, is_empty,
}

pub record FcgiRequest : Type 0 where
  pub request_method : Bytes
  pub request_uri : Bytes
  pub query_string : Bytes
  pub content_type : Bytes
  pub content : Bytes
  pub script_name : Bytes
  pub path_info : Bytes
  pub server_protocol : Bytes

-- `s.substr(s.rfind(c))`
unfoldable pub from_last : ℕ → Bytes → Option Bytes
from_last c [] = none
from_last c (d ∷ s) = elim (from_last c s) [
  | some tail ↦ some tail
  | none ↦ if d == c then some (d ∷ s) else none
]

-- "Some FastCGI setups ... pass only SCRIPT_NAME"
unfoldable pub script_path : Bytes → Bytes
script_path script_name = elim (from_last b'/' script_name) [
  | none ↦ []
  | some tail ↦ if bytes_eq tail (codes "/") then [] else tail
]

-- "request_uri minus query string"
unfoldable pub without_query : Bytes → Bytes
without_query request_uri = elim (find_byte b'?' request_uri) [
  | none ↦ request_uri
  | some qpos ↦ take qpos request_uri
]

-- From "If SCRIPT_NAME is a prefix of uri_path".
unfoldable pub below_script : Bytes → Bytes → Bytes
below_script script_name uri_path =
    let trail = drop (length script_name) uri_path in
    let same : Bytes = elim (from_last b'/' script_name) [ none ↦ uri_path | some tail ↦ tail ] in
    if not (is_empty script_name)
      && leb (length script_name) (length uri_path)
      && bytes_eq (take (length script_name) uri_path) script_name
    then if not (is_empty trail) then trail else same
    else uri_path

unfoldable pub path : FcgiRequest → Bytes
path r =
    if not (is_empty r.path_info)
    then r.path_info
    else if not (is_empty r.request_uri)
    then below_script r.script_name (without_query r.request_uri)
    else if not (is_empty r.script_name)
    then script_path r.script_name
    else []

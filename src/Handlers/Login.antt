-- ===== src/Handlers/Login.antt =====
-- src/handlers/login_handler.cpp: the endpoint /l. The version texts, which the build fills in, and the
-- environment variable LOGIN_EXTRA_CONFIG are arguments.
pub mod Response
use cometvisu_knxd_fcgi.Util.QueryString.{Params, query_string, has}
use cometvisu_knxd_fcgi.Util.JsonBuilder.{
  JsonBuilder, start_object, add_string, add_key, new_builder, add_raw, end_object,
}
use cometvisu_knxd_fcgi.State.SessionStore.{SessionStore, create_session}
use cometvisu_knxd_fcgi.Prelude.{
  ℕ, Bool, true, false, ◌&&◌, ◌||◌, not, Option, none, some, [], Bytes, bytes_eq, codes, is_empty,
}

pub record Setup : Type 0 where
  pub base_url : Bytes
  pub version : Bytes
  pub git_hash : Bytes
  pub knxd_build_version : Bytes
  pub knxd_build_git_hash : Bytes
  pub extra_config : Option Bytes

-- `!s.empty() && s != "unknown"`
unfoldable pub is_known : Bytes → Bool
is_known s = not (is_empty s) && not (bytes_eq s (codes "unknown"))

-- `extra_config != nullptr && *extra_config != '\0'`
unfoldable pub has_extra : Option Bytes → Bool
has_extra none = false
has_extra (some s) = not (is_empty s)

abbrev pub extra_text : Option Bytes → Bytes
extra_text none = []
extra_text (some s) = s

unfoldable pub need_config : Setup → Bool
need_config c =
    has_extra c.extra_config
    || (not (is_empty c.knxd_build_git_hash)
        || (not (is_empty c.knxd_build_version)
            || (is_known c.git_hash || (is_known c.version || not (is_empty c.base_url)))))

-- `if (b) ...`
abbrev pub when : Bool → (JsonBuilder → JsonBuilder) → JsonBuilder → JsonBuilder
when true f j = f j
when false f j = j

-- The block that needs `need_config`.
unfoldable pub add_config : Setup → JsonBuilder → JsonBuilder
add_config c j =
    let j₀ = start_object (add_key (codes "c") j) in
    let j₁ = when (not (is_empty c.base_url)) (add_string (codes "baseURL") c.base_url) j₀ in
    let j₂ = when (is_known c.version) (add_string (codes "fcgiVersion") c.version) j₁ in
    let j₃ = when (is_known c.git_hash) (add_string (codes "fcgiGitHash") c.git_hash) j₂ in
    let j₄ =
      when (not (is_empty c.knxd_build_version))
        (add_string (codes "knxdBuildVersion") c.knxd_build_version) j₃ in
    let j₅ =
      when (not (is_empty c.knxd_build_git_hash))
        (add_string (codes "knxdBuildGitHash") c.knxd_build_git_hash) j₄ in
    let j₆ = when (has_extra c.extra_config) (add_raw (extra_text c.extra_config)) j₅ in
    end_object j₆

-- The response for a session.
unfoldable pub login_body : Setup → Bytes → Bytes
login_body c session_id =
    let j₁ = add_string (codes "v") (codes "0.0.2") (start_object new_builder) in
    let j₂ = add_string (codes "s") session_id j₁ in
    (end_object (when (need_config c) (add_config c) j₂)).buffer

-- `LoginHandler::handle`
unfoldable pub handle_login : Setup → ℕ → ℕ → ℕ → Bytes → SessionStore → Bytes × SessionStore
handle_login c now created num raw sessions =
    let params = query_string raw in
    let anonymous = not (has (codes "u") params) && not (has (codes "p") params) in
    let (session_id, after) = create_session anonymous now created num sessions in
    (login_body c session_id, after)

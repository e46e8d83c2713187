-- ===== src/Fcgi/Server/Running/Equivalence.antt =====
-- The two functions of src/fcgi/fcgi_server.cpp that read a request agree.
use mathlib.Core.Path.{fun_ext}
use cometvisu_knxd_fcgi.Fcgi.Request.{FcgiRequest}
use cometvisu_knxd_fcgi.Fcgi.Server.Library.{Library}
use cometvisu_knxd_fcgi.Fcgi.Server.{
  read_request, get_env, get_env_or_empty, read_content, with_content, content_length,
}
use cometvisu_knxd_fcgi.Fcgi.Server.Running.{
  or_empty, request_head, read_variables, with_length, read_environ,
}
use cometvisu_knxd_fcgi.Prelude.{
  ◌≡◌, ◌≢◌, refl, ◌⊎◌, inl, inr, Option, none, some, List, Bytes, codes, ap, ◌∙◌, Bool, true, false,
  ◌||◌, [], if◌then◌else◌, bytes_eq, bytes_eq_iff,
}

or_empty-elim :
    (o : Option Bytes) → or_empty o ≡ (let v : Bytes = elim o [ some v ↦ v | none ↦ [] ] in v)
unfolding or_empty
or_empty-elim none = refl
or_empty-elim (some v) = refl

or_empty-get_env :
    (envp : List Bytes) (name : Bytes) → or_empty (get_env envp name) ≡ get_env_or_empty envp name
unfolding get_env_or_empty
or_empty-get_env envp name = or_empty-elim (get_env envp name)

module _ {W : Type 0} (lib : Library W) where
  with_length-some :
      (req : FcgiRequest) (length_str : Option Bytes) (w : W)
      → length_str ≢ none
      → with_length lib req length_str w
        ≡ some (
            with_content lib.fread req (
              read_content lib.fread
                (content_length (or_empty length_str))
                (content_length (or_empty length_str))
                w))
  unfolding or_empty
  with_length-some req none w h = elim (h refl) [ ]
  with_length-some req (some s) w h = refl

  either_method :
      (post put : Bool) (a : Option (FcgiRequest × W)) (b c : FcgiRequest × W)
      → (post ≡ true ⊎ put ≡ true → a ≡ some b)
      → (if post || put then a else some c) ≡ some (if post || put then b else c)
  either_method true put a b c h = h (inl refl)
  either_method false true a b c h = h (inr refl)
  either_method false false a b c h = refl

  -- Where a POST or PUT request has a CONTENT_LENGTH, read_request() with getenv and
  -- read_request(envp) read the same request, and leave the same stream, from the same
  -- environment.
  pub read_environ-get_env :
      (envp : List Bytes) (w : W)
      → (get_env_or_empty envp (codes "REQUEST_METHOD") ≡ codes "POST"
            ⊎ get_env_or_empty envp (codes "REQUEST_METHOD") ≡ codes "PUT"
          → get_env envp (codes "CONTENT_LENGTH") ≢ none)
      → read_environ lib (get_env envp) w ≡ some (read_request lib.fread (some envp) w)
  unfolding read_environ read_request
  read_environ-get_env envp w h =
      let method = get_env_or_empty envp (codes "REQUEST_METHOD") in
      let length_str = get_env envp (codes "CONTENT_LENGTH") in
      ap (λ (value : Bytes → Bytes). read_variables lib value length_str w)
        (fun_ext (or_empty-get_env envp))
      ∙ either_method (bytes_eq method (codes "POST")) (bytes_eq method (codes "PUT")) _ _
          (request_head (get_env_or_empty envp), w)
          (λ m.
            with_length-some (request_head (get_env_or_empty envp)) length_str w (
              h (elim m [
                | inl e ↦ inl ((bytes_eq_iff method (codes "POST")).0 e)
                | inr e ↦ inr ((bytes_eq_iff method (codes "PUT")).0 e)
              ]))
            ∙ ap
                (λ (text : Bytes). some (
                  with_content lib.fread (request_head (get_env_or_empty envp))
                    (read_content lib.fread (content_length text) (content_length text) w)))
                (or_empty-get_env envp (codes "CONTENT_LENGTH")))

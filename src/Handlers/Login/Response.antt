-- ===== src/Handlers/Login/Response.antt =====
-- The answer of src/handlers/login_handler.cpp as the text of an object.
use cometvisu_knxd_fcgi.Handlers.Login.{
  Setup, is_empty, when, need_config, add_config, end_object, is_known, start_object, has_extra,
  add_key, extra_text, login_body, new_builder,
}
use cometvisu_knxd_fcgi.Util.JsonBuilder.{
  JsonBuilder, quoted, add_string, add_raw, end_object, start_object, add_key, new_builder,
}
use cometvisu_knxd_fcgi.Prelude.{
  ◌≡◌, refl, sym, ap, ◌∙◌, Bool, true, false, ◌||◌, not, List, [], ◌∷◌, ◌++◌, Bytes, codes,
  is_empty, append-nil, inl, inr, Bool-cases,
}
use cometvisu_knxd_fcgi.Util.JsonBuilder.Members.{
  member, add_members, add_members-append, add_string-member, object_text, buffer-nested,
  object-add_members,
}

abbrev pub optional : Bool → Bytes → List Bytes
optional true m = m ∷ []
optional false m = []

-- The members of the configuration block.
abbrev pub config_members : Setup → List Bytes
config_members c =
    ((((optional (not (is_empty c.base_url)) (member (codes "baseURL") (quoted c.base_url))
            ++ optional (is_known c.version) (member (codes "fcgiVersion") (quoted c.version)))
          ++ optional (is_known c.git_hash) (member (codes "fcgiGitHash") (quoted c.git_hash)))
        ++ optional (not (is_empty c.knxd_build_version))
            (member (codes "knxdBuildVersion") (quoted c.knxd_build_version)))
      ++ optional (not (is_empty c.knxd_build_git_hash))
          (member (codes "knxdBuildGitHash") (quoted c.knxd_build_git_hash)))
    ++ optional (has_extra c.extra_config) (extra_text c.extra_config)

when-more :
    (b : Bool) (m : Bytes) (f : JsonBuilder → JsonBuilder) (ms : List Bytes) (j : JsonBuilder)
    → ((k : JsonBuilder) → f k ≡ add_raw m k)
    → when b f (add_members ms j) ≡ add_members (ms ++ optional b m) j
when-more true m f ms j e = e (add_members ms j) ∙ sym (add_members-append ms (m ∷ []) j)
when-more false m f ms j e = ap (λ l. add_members l j) (sym (append-nil ms))

when-string :
    (b : Bool) (key value : Bytes) (ms : List Bytes) (j : JsonBuilder)
    → when b (add_string key value) (add_members ms j)
      ≡ add_members (ms ++ optional b (member key (quoted value))) j
when-string b key value ms j =
    when-more b (member key (quoted value)) (add_string key value) ms j
      (add_string-member key value)

is_empty-append :
    (ms : List Bytes) (b : Bool) (m : Bytes)
    → not (is_empty (ms ++ optional b m)) ≡ b || not (is_empty ms)
is_empty-append [] true m = refl
is_empty-append [] false m = refl
is_empty-append (x ∷ ms) true m = refl
is_empty-append (x ∷ ms) false m = refl

is_empty-optional : (b : Bool) (m : Bytes) → not (is_empty (optional b m)) ≡ b
is_empty-optional true m = refl
is_empty-optional false m = refl

need_config-members : (c : Setup) → need_config c ≡ not (is_empty (config_members c))
unfolding need_config
need_config-members c = rw (
  is_empty-append, is_empty-append, is_empty-append, is_empty-append, is_empty-append,
  is_empty-optional,
)

add_config-members :
    (c : Setup) (j : JsonBuilder)
    → add_config c j
      ≡ end_object (add_members (config_members c) (start_object (add_key (codes "c") j)))
unfolding add_config
add_config-members c j =
    let j₀ = start_object (add_key (codes "c") j) in
    let opt : Bool → Bytes → Bytes → List Bytes =
      λ b key value. optional b (member key (quoted value)) in
    let m₁ = opt (not (is_empty c.base_url)) (codes "baseURL") c.base_url in
    let m₂ = m₁ ++ opt (is_known c.version) (codes "fcgiVersion") c.version in
    let m₃ = m₂ ++ opt (is_known c.git_hash) (codes "fcgiGitHash") c.git_hash in
    let b₄ = not (is_empty c.knxd_build_version) in
    let m₄ = m₃ ++ opt b₄ (codes "knxdBuildVersion") c.knxd_build_version in
    let b₅ = not (is_empty c.knxd_build_git_hash) in
    let m₅ = m₄ ++ opt b₅ (codes "knxdBuildGitHash") c.knxd_build_git_hash in
    let extra = extra_text c.extra_config in
    rw (
      when-string (not (is_empty c.base_url)) (codes "baseURL") c.base_url [] j₀,
      when-string (is_known c.version) (codes "fcgiVersion") c.version m₁ j₀,
      when-string (is_known c.git_hash) (codes "fcgiGitHash") c.git_hash m₂ j₀,
      when-string b₄ (codes "knxdBuildVersion") c.knxd_build_version m₃ j₀,
      when-string b₅ (codes "knxdBuildGitHash") c.knxd_build_git_hash m₄ j₀,
      when-more (has_extra c.extra_config) extra (add_raw extra) m₅ j₀ (λ k. refl),
    )

buffer-end_object : (j : JsonBuilder) → (end_object j).buffer ≡ j.buffer ++ b'}' ∷ []
unfolding end_object
buffer-end_object j = refl

when-config :
    (c : Setup) (j : JsonBuilder)
    → (when (need_config c) (add_config c) j).buffer
      ≡ (add_members
          (optional (need_config c) (member (codes "c") (object_text (config_members c))))
          j).buffer
when-config c j = elim (Bool-cases (need_config c)) [
  | inr nothing ↦ rw nothing
  | inl block ↦ rw (block, add_config-members c j) (buffer-nested (codes "c") (config_members c) j)
]

-- The answer is an object with the protocol version, the session, and, if there is anything to say,
-- a configuration object with the members that are known, in a fixed order.
pub login_body-object_text :
    (c : Setup) (session_id : Bytes)
    → login_body c session_id
      ≡ object_text (
          member (codes "v") (quoted (codes "0.0.2"))
          ∷ member (codes "s") (quoted session_id)
          ∷ optional
              (not (is_empty (config_members c)))
              (member (codes "c") (object_text (config_members c))))
unfolding login_body
login_body-object_text c session_id =
    let v = member (codes "v") (quoted (codes "0.0.2")) in
    let s = member (codes "s") (quoted session_id) in
    let j₀ = start_object new_builder in
    let j₁ = add_raw v j₀ in
    let block = optional (need_config c) (member (codes "c") (object_text (config_members c))) in
    let both : add_string (codes "s") session_id (add_string (codes "v") (codes "0.0.2") j₀)
        ≡ add_raw s j₁ =
      rw (add_string-member (codes "v") (codes "0.0.2") j₀)
        (add_string-member (codes "s") session_id j₁) in
    let e = need_config-members c in
    ap (λ j. (end_object (when (need_config c) (add_config c) j)).buffer) both
    ∙ buffer-end_object (when (need_config c) (add_config c) (add_raw s j₁))
    ∙ ap (λ b. b ++ b'}' ∷ []) (when-config c (add_raw s j₁))
    ∙ sym (buffer-end_object (add_members (v ∷ s ∷ block) j₀))
    ∙ object-add_members (v ∷ s ∷ block)
    ∙ ap
        (λ b.
          object_text (v ∷ s ∷ optional b (member (codes "c") (object_text (config_members c)))))
        e

-- ===== src/Fcgi/Server/Body.antt =====
-- The body that `read_request` of src/fcgi/fcgi_server.cpp reads.
use cometvisu_knxd_fcgi.Fcgi.Request.{FcgiRequest}
use cometvisu_knxd_fcgi.Fcgi.Server.{
  after_fread, read_content, content_length, with_content, read_request, get_env_or_empty,
}
use cometvisu_knxd_fcgi.Prelude.{
  ℕ, zero, suc, ◌-◌, ◌≤◌, ◌<◌, ◌≡◌, refl, sym, ap, ◌∙◌, ◌||◌, some, List, [], ◌∷◌, ◌++◌, arith,
  Bytes, if◌then◌else◌, length, bytes_eq, codes, take, Bool, true, false, length-take, subst,
}

take_over :
    (n : ℕ) (bytes rest : Bytes)
    → length bytes ≤ n
    → bytes ++ take (n - length bytes) rest ≡ take n (bytes ++ rest)
take_over n [] rest h = ap (λ k. take k rest) (omega arith)
take_over zero (b ∷ bytes) rest h = absurd (omega arith)
take_over (suc n) (b ∷ bytes) rest h =
    ap (λ s. b ∷ s)
      (ap (λ k. bytes ++ take k rest) (omega arith) ∙ take_over n bytes rest (omega arith))

content_length-le : (s : Bytes) → content_length s ≤ 65536
unfolding content_length
content_length-le s = ground arith

length-take_if :
    (b : Bool) (n : ℕ) (s : Bytes) → n ≤ 65536 → length (if b then take n s else []) ≤ 65536
length-take_if true n s h = omega (arith, length-take n s)
length-take_if false n s h = omega arith

module _ {S : Type 0} (fread : ℕ → S → Bytes × S) (unread : S → Bytes) where
  -- `FCGI_fread` gives bytes from the front of the stream, at most as many as asked, and none only at its end.
  pub record FreadLaw : Type 0 where
    pub front : (n : ℕ) (s : S) → (let (bytes, s') = fread n s in unread s ≡ bytes ++ unread s')
    pub few : (n : ℕ) (s : S) → length (fread n s).0 ≤ n
    pub at_end : (n : ℕ) (s : S) → 0 < n → (fread n s).0 ≡ [] → unread s ≡ []

  after_fread-take :
      (rounds missing : ℕ) (s : S) (r : Bytes × S)
      → (let (bytes, s') = r in
          (unread s ≡ bytes ++ unread s')
          × (length bytes ≤ suc missing)
          × (bytes ≡ [] → unread s ≡ []))
      → ((k : ℕ) (s' : S) → k ≤ missing → (read_content fread rounds k s').0 ≡ take k (unread s'))
      → (after_fread fread (read_content fread rounds) (suc missing) r).0
        ≡ take (suc missing) (unread s)
  after_fread-take rounds missing s ([], s') (front, few, at_end) rest = rw (at_end refl)
  after_fread-take rounds missing s (b ∷ bytes, s') (front, few, at_end) rest =
      ap (λ later. b ∷ bytes ++ later) (rest (suc missing - length (b ∷ bytes)) s' (omega arith))
      ∙ take_over (suc missing) (b ∷ bytes) (unread s') few
      ∙ ap (take (suc missing)) (sym front)

  read_content-take :
      (rounds missing : ℕ) (s : S)
      → FreadLaw
      → missing ≤ rounds
      → (read_content fread rounds missing s).0 ≡ take missing (unread s)
  unfolding read_content
  read_content-take zero zero s law h = refl
  read_content-take zero (suc missing) s law h = absurd (omega arith)
  read_content-take (suc rounds) zero s law h = refl
  read_content-take (suc rounds) (suc missing) s law h =
      after_fread-take rounds missing s (fread (suc missing) s)
        (
          law.front (suc missing) s,
          law.few (suc missing) s,
          law.at_end (suc missing) s (omega arith),
        )
        (λ k s' l. read_content-take rounds k s' law (omega arith))

  content_if :
      (b : Bool) (r : FcgiRequest) (x : Bytes × S) (s : S)
      → r.content ≡ []
      → (if b then with_content fread r x else (r, s)).0.content ≡ (if b then x.0 else [])
  content_if true r (content, s') s e = refl
  content_if false r x s e = e

  same_if : (b : Bool) (x y : Bytes) → x ≡ y → (if b then x else []) ≡ (if b then y else [])
  same_if true x y e = e
  same_if false x y e = refl

  -- The body of a request is, for POST and PUT, the front of the stream up to the content length, of which
  -- at most 64 KiB count, and empty otherwise.
  pub read_request-content :
      (envp : List Bytes) (s : S)
      → FreadLaw
      → (let method = get_env_or_empty envp (codes "REQUEST_METHOD") in
          let content = (read_request fread (some envp) s).0.content in
          (length content ≤ 65536)
          × (content ≡ (
              if bytes_eq method (codes "POST") || bytes_eq method (codes "PUT")
              then take (content_length (get_env_or_empty envp (codes "CONTENT_LENGTH"))) (unread s)
              else [])))
  unfolding read_request
  read_request-content envp s law =
      let method = get_env_or_empty envp (codes "REQUEST_METHOD") in
      let has_body = bytes_eq method (codes "POST") || bytes_eq method (codes "PUT") in
      let n = content_length (get_env_or_empty envp (codes "CONTENT_LENGTH")) in
      let e =
        content_if has_body _ (read_content fread n n s) s refl
        ∙ same_if has_body _ (take n (unread s)) (read_content-take n n s law (omega arith)) in
      (
        subst (λ b. length b ≤ 65536) (sym e)
            (length-take_if has_body n (unread s) (content_length-le _)),
        e,
      )

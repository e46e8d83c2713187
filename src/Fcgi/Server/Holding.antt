-- ===== src/Fcgi/Server/Holding.antt =====
-- The tokens of a request in src/fcgi/fcgi_server.cpp: what it takes, it gives back.
use cometvisu_knxd_fcgi.Fcgi.Request.{FcgiRequest, path}
use cometvisu_knxd_fcgi.Fcgi.Server.{
  Pool, Tokens, Admission, admitted, refused, try_wait, post, release, admit_load,
  admit_concurrency, admit,
}
use cometvisu_knxd_fcgi.Prelude.{
  zero, suc, ◌≡◌, refl, Option, none, some, inl, inr, Bool, true, false, Bool-cases, bytes_eq,
  codes, ℕ,
}

-- What a request holds.
abbrev pub admission_tokens : Admission → Tokens
admission_tokens (admitted t) = t
admission_tokens (refused r t) = t

-- Taking and giving back.
try_wait-post :
    (sem : Option ℕ) → (let ((go_on, held), left) = try_wait sem in post held left ≡ sem)
unfolding try_wait post
try_wait-post none = refl
try_wait-post (some zero) = refl
try_wait-post (some (suc n)) = refl

pool_eq :
    (concurrency load_shed : Option ℕ) (p : Pool)
    → concurrency ≡ p.concurrency
    → load_shed ≡ p.load_shed
    → (let q : Pool = record { concurrency = concurrency; load_shed = load_shed } in q) ≡ p
pool_eq concurrency load_shed p e f = cc

post-false : (sem : Option ℕ) → post false sem ≡ sem
unfolding post
post-false none = refl
post-false (some n) = refl

post_comm : (b c : Bool) (sem : Option ℕ) → post b (post c sem) ≡ post c (post b sem)
unfolding post
post_comm true true sem = refl
post_comm false false sem = refl
post_comm true false none = refl
post_comm true false (some n) = refl
post_comm false true none = refl
post_comm false true (some n) = refl

abbrev pub Restored : Pool → Admission × Pool → Type 0
Restored p (a, p') = release (admission_tokens a) p' ≡ p

load-Restored :
    (token : Bool) (p : Pool) (left : Option ℕ)
    → post token left ≡ p.concurrency
    → Restored p (admit_load token left (try_wait p.load_shed))
unfolding release
load-Restored token p left e = by_wait (try_wait p.load_shed) (try_wait-post p.load_shed)
  where
    by_wait :
        (w : (Bool × Bool) × Option ℕ)
        → (let ((go_on, held), rest) = w in post held rest ≡ p.load_shed)
        → Restored p (admit_load token left w)
    by_wait ((true, held), rest) q = pool_eq (post token left) (post held rest) p e q
    by_wait ((false, held), rest) q = pool_eq (post token left) (post held rest) p e q

concurrency-Restored :
    (p : Pool) → Restored p (admit_concurrency p.load_shed (try_wait p.concurrency))
unfolding release
concurrency-Restored p = by_wait (try_wait p.concurrency) (try_wait-post p.concurrency)
  where
    by_wait :
        (w : (Bool × Bool) × Option ℕ)
        → (let ((go_on, held), rest) = w in post held rest ≡ p.concurrency)
        → Restored p (admit_concurrency p.load_shed w)
    by_wait ((true, held), rest) q = load-Restored held p rest q
    by_wait ((false, held), rest) q =
        pool_eq (post held rest) (post false p.load_shed) p q (post-false p.load_shed)

pub admit-Restored : (req : FcgiRequest) (p : Pool) → Restored p (admit req p)
unfolding admit release
admit-Restored req p = elim (Bool-cases (bytes_eq (path req) (codes "/r"))) [
  | inl read ↦ rw (admit, read) (concurrency-Restored p)
  | inr other ↦
      rw (admit, other)
        (pool_eq (post false p.concurrency) (post false p.load_shed) p (post-false p.concurrency)
          (post-false p.load_shed))
]

pub release_comm : (t u : Tokens) (p : Pool) → release t (release u p) ≡ release u (release t p)
unfolding release
release_comm t u p =
    pool_eq (post t.concurrency (post u.concurrency p.concurrency))
      (post t.load_shed (post u.load_shed p.load_shed)) (release u (release t p))
      (post_comm t.concurrency u.concurrency p.concurrency)
      (post_comm t.load_shed u.load_shed p.load_shed)

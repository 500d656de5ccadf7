-- ===== src/Auth/Middleware/Guard.antt =====
-- Which requests reach the handler behind `Middleware`.
use mdtree.Prelude.{
  ℕ, Bytes, bytes_eq, ◌≡◌, inl, inr, refl, ap, sym, ◌∙◌, ◌≢◌, Bool, true, false, not, ◌&&◌, List,
  [], arith, Bool-cases, if◌then◌else◌,
}
use mdtree.Auth.Session.{SessionStore, validate}
use mdtree.Auth.Session.History.{Event, after, ends, is_live, AllNotAfter, validate-ends}
use mdtree.Auth.Cookie.{Cookies, token, authenticated}
use mdtree.Auth.Middleware.{Handler, middleware, unauthorized}

validate_kept :
    (t : Bytes) (now : ℕ) (s : SessionStore)
    → (validate t now s).0 ≡ true
    → (validate t now s).1 ≡ s
unfolding validate
validate_kept t now s h = ground arith

bytes_eq-false : (a b : Bytes) → bytes_eq a b ≡ false → a ≢ b
bytes_eq-false a b h e = ground arith

-- Whether the request's cookie names a session that the history issued, did not delete since, and
-- that has not ended.
abbrev pub is_signed_in : ℕ → List Event → Cookies → ℕ → Bool
is_signed_in ttl h cs now = not (bytes_eq (token cs) []) && is_live now (ends ttl h (token cs))

validate-after :
    (ttl : ℕ) (h : List Event) (t : Bytes) (now : ℕ)
    → AllNotAfter now h
    → (validate t now (after ttl h)).0 ≡ not (bytes_eq t []) && is_live now (ends ttl h t)
unfolding validate
validate-after ttl h t now n = elim (Bool-cases (bytes_eq t [])) [
  | inl e ↦ rw e refl
  | inr e ↦
      validate-ends ttl h t now (bytes_eq-false t [] e) n
      ∙ ap (λ b. not b && is_live now (ends ttl h t)) (sym e)
]

guarded :
    {World : Type 0} (next : Handler World) (w : World) (a : Bool × SessionStore) (s : SessionStore)
    → (a.0 ≡ true → a.1 ≡ s)
    → (if a.0 then next (a.1, w) else (unauthorized, (a.1, w)))
      ≡ (if a.0 then next (s, w) else (unauthorized, (a.1, w)))
guarded next w (true, s') s h = ap (λ x. next (x, w)) (h refl)
guarded next w (false, s') s h = refl

-- After any history of the session store, the handler runs, on the state as it was, exactly for
-- the requests whose cookie names a live session; every other request is answered 401, and leaves
-- all but the session store alone.
pub middleware-is_signed_in :
    {World : Type 0} (next : Handler World) (ttl : ℕ) (h : List Event) (cs : Cookies) (now : ℕ)
    (w : World)
    → AllNotAfter now h
    → middleware next cs now (after ttl h, w) ≡ (
        if is_signed_in ttl h cs now
        then next (after ttl h, w)
        else (unauthorized, ((authenticated cs now (after ttl h)).1, w)))
unfolding middleware authenticated
middleware-is_signed_in next ttl h cs now w n =
    guarded next w (validate (token cs) now (after ttl h)) (after ttl h)
      (validate_kept (token cs) now (after ttl h))
    ∙ ap
        (λ b.
          if b
          then next (after ttl h, w)
          else (unauthorized, ((validate (token cs) now (after ttl h)).1, w)))
        (validate-after ttl h (token cs) now n)

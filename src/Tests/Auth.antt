-- ===== src/Tests/Auth.antt =====
-- Sessions, the guard and the rate limiter.
use mdtree.Prelude.{
  Bytes, bytes, bytes_discrete, ℕ_discrete, ◌≡◌, ◌≢◌, ◌<◌, ℕ, length, refl, ap, true, false, List,
  [], ◌∷◌, some, none, arith, ltb, if◌then◌else◌, ◌+◌,
}
use mdtree.Prelude.Assoc.{lookup, insert, erase}
use mdtree.Auth.Token.{random_token, fill, url_encode, url_digit}
use mdtree.Auth.Session.{Session, SessionStore, validate, evict_expired, drop_expired, create}
use mdtree.Auth.Session
use mdtree.Auth.Session.History.{
  Event, created, validated, deleted, evicted, after, ends, is_live, validate-ends,
}
use mdtree.Auth.Session.{tick, done, run_gc}
use mdtree.Auth.Session.Collector.{surviving, lookup-run_gc}
use mdtree.Prelude.Assoc.{HasDistinctKeys}
use mdtree.Auth.Cookie.{Cookies, cookie_name, authenticated, token}
use mdtree.Auth.Middleware.{Handler, middleware, unauthorized}
use mdtree.Auth.Middleware.Guard.{is_signed_in, middleware-is_signed_in}
use mdtree.Auth.RateLimiter.{
  RateLimiter, new_rate_limiter, current, allowed, fail, reset, retry_after,
}
use mdtree.Auth.RateLimiter.Window.{fails, allowed_other, allowed-fails}

abbrev random : Bytes
random = 0 ∷ 16 ∷ 131 ∷ []

-- The three bytes, and zeros up to 32.
encoded : random_token 32 (some random) ≡ some (bytes "ABCDAAAAAAAAAAAAAAAAAAAAAAAAAAAAAAAAAAAAAAA")
unfolding random_token fill url_encode url_digit
encoded = refl

abbrev token_text : Bytes
token_text = bytes "ABCDAAAAAAAAAAAAAAAAAAAAAAAAAAAAAAAAAAAAAAA"

-- A session of 100 from 5 on, another of it deleted, a look at it, and an eviction.
abbrev history : List Event
history =
    evicted 50
    ∷ validated token_text 40
    ∷ deleted (bytes "x")
    ∷ created (some random) 5
    ∷ created none 4
    ∷ []

named : token_text ≢ []
named e = cc

validate-ends_example :
    (validate token_text 105 (after 100 history)).0 ≡ is_live 105 (ends 100 history token_text)
validate-ends_example =
    validate-ends 100 history token_text 105 named
      (omega arith, (omega arith, (tt, (omega arith, (omega arith, tt)))))

ended : is_live 106 (ends 100 history token_text) ≡ false
unfolding random_token fill url_encode url_digit bytes_discrete ℕ_discrete
ended = refl

abbrev session : Session
session = record { token = token_text; created = 5; expires = 105 }

kept : lookup token_text (evict_expired 105 (after 100 history)).sessions ≡ some session
unfolding evict_expired drop_expired lookup insert erase create validate random_token fill
    url_encode url_digit bytes_discrete ℕ_discrete Session.delete
kept = refl

distinct : HasDistinctKeys (after 100 history).sessions
unfolding evict_expired drop_expired lookup insert erase create validate random_token fill
    url_encode url_digit bytes_discrete ℕ_discrete Session.delete
distinct = (tt, tt)

abbrev greet : Handler ℕ
greet (s, hits) = (record { status = 200; content_type = []; body = bytes "hi" }, (s, hits + 1))

abbrev cookies : Cookies
cookies = (bytes "theme", bytes "dark") ∷ (cookie_name, token_text) ∷ []

middleware-is_signed_in_example : middleware greet cookies 105 (after 100 history, 7) ≡ (
    if is_signed_in 100 history cookies 105
    then greet (after 100 history, 7)
    else (unauthorized, ((authenticated cookies 105 (after 100 history)).1, 7)))
middleware-is_signed_in_example =
    middleware-is_signed_in greet 100 history cookies 105 7
      (omega arith, (omega arith, (tt, (omega arith, (omega arith, tt)))))

signed_in : is_signed_in 100 history cookies 105 ≡ true
unfolding token random_token fill url_encode url_digit bytes_discrete ℕ_discrete
signed_in = refl

abbrev limiter : RateLimiter
limiter = new_rate_limiter 3 60

abbrev alice : Bytes
alice = bytes "10.0.0.1"

abbrev bob : Bytes
bob = bytes "10.0.0.2"

unseen : lookup alice limiter.entries ≡ none
unfolding lookup
unseen = refl

-- The third failure closes the key.
allowed-fails_example :
    (allowed alice 70 (fails alice (10 ∷ 20 ∷ 60 ∷ []) limiter)).0
    ≡ ltb (length {A = ℕ} (10 ∷ 20 ∷ 60 ∷ [])) 3
allowed-fails_example =
    allowed-fails limiter alice 10 70 (20 ∷ 60 ∷ []) unseen (omega arith, (omega arith, tt))
      (omega arith)

abbrev last_byte : Bytes → ℕ
last_byte [] = 0
last_byte (c ∷ []) = c
last_byte (c ∷ d ∷ s) = last_byte (d ∷ s)

other : alice ≢ bob
other e = omega (arith, ap last_byte e)

allowed_other_example :
    ((allowed bob 30 (fail alice 20 limiter)).0 ≡ (allowed bob 30 limiter).0)
    × ((allowed bob 30 (allowed alice 20 limiter).1).0 ≡ (allowed bob 30 limiter).0)
    × ((allowed bob 30 (reset alice limiter)).0 ≡ (allowed bob 30 limiter).0)
allowed_other_example = allowed_other alice bob 20 30 limiter other

lookup-run_gc_example :
    lookup token_text (run_gc (tick 50 ∷ tick 106 ∷ done ∷ []) (after 100 history)).sessions
    ≡ surviving (tick 50 ∷ tick 106 ∷ done ∷ []) (lookup token_text (after 100 history).sessions)
lookup-run_gc_example =
    lookup-run_gc (tick 50 ∷ tick 106 ∷ done ∷ []) (after 100 history) token_text distinct

abbrev closed : RateLimiter
closed = fails alice (10 ∷ 20 ∷ 60 ∷ []) limiter

waited : 20 + retry_after alice 20 closed < 71
unfolding retry_after fail current lookup insert bytes_discrete ℕ_discrete
waited = omega arith

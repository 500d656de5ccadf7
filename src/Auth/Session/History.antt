-- ===== src/Auth/Session/History.antt =====
-- The session store against the history of its calls: eviction and lazy deletion are invisible.
use mathlib.Core.Logic.{ite}
use mdtree.Prelude.{
  ℕ, ◌+◌, ◌≤◌, Bytes, bytes_discrete, ◌≡◌, ◌≢◌, ◌∙◌, refl, Bool, false, not, List, [], ◌∷◌, Option,
  none, some, arith, ltb, if◌then◌else◌,
}
use mdtree.Prelude.Assoc
use mdtree.Prelude.Assoc.{
  Assoc, Absent, HasDistinctKeys, lookup-insert, lookup-erase, lookup_of_Absent,
  insert-HasDistinctKeys, erase-HasDistinctKeys,
}
use mdtree.Auth.Token.{random_token, fill, url_encode}
use mdtree.Auth.Session.{
  session_token_bytes, Session, SessionStore, new_session_store, create, delete, expired, validate,
  drop_expired, evict_expired,
}

-- A call of the store, with its random bytes and its clock reading.
pub data Event : Type 0 where
  created : Option Bytes → ℕ → Event
  validated : Bytes → ℕ → Event
  deleted : Bytes → Event
  evicted : ℕ → Event

-- A history has its latest event at the head.
abbrev pub apply : Event → SessionStore → SessionStore
apply (created random now) s = (create random now s).1
apply (validated token now) s = (validate token now s).1
apply (deleted token) s = delete token s
apply (evicted now) s = evict_expired now s

abbrev pub after : ℕ → List Event → SessionStore
after ttl [] = new_session_store ttl
after ttl (e ∷ h) = apply e (after ttl h)

-- The specification: when the last session of a token that was not deleted since ends.
abbrev issue : ℕ → ℕ → Bytes → Option Bytes → Option ℕ → Option ℕ
issue ttl now token none before = before
issue ttl now token (some fresh) before = ite (bytes_discrete fresh token) (some (now + ttl)) before

abbrev pub ends : ℕ → List Event → Bytes → Option ℕ
ends ttl [] token = none
ends ttl (created random now ∷ h) token =
    issue ttl now token (random_token session_token_bytes random) (ends ttl h token)
ends ttl (validated _ _ ∷ h) token = ends ttl h token
ends ttl (deleted t ∷ h) token = ite (bytes_discrete t token) none (ends ttl h token)
ends ttl (evicted _ ∷ h) token = ends ttl h token

abbrev pub is_live : ℕ → Option ℕ → Bool
is_live now none = false
is_live now (some end) = not (ltb end now)

-- The clock does not go back: every earlier reading is at most `now`.
abbrev pub NotAfter : ℕ → Event → Type 0
NotAfter now (created _ t) = t ≤ now
NotAfter now (validated _ t) = t ≤ now
NotAfter now (deleted _) = Unit
NotAfter now (evicted t) = t ≤ now

abbrev pub AllNotAfter : ℕ → List Event → Type 0
AllNotAfter now [] = Unit
AllNotAfter now (e ∷ h) = NotAfter now e × AllNotAfter now h

abbrev end_of : Option Session → Option ℕ
end_of none = none
end_of (some sess) = some sess.expires

record Tracks (ttl : ℕ) (h : List Event) (s : SessionStore) : Type 0 where
  same_ttl : s.ttl ≡ ttl
  distinct : HasDistinctKeys s.sessions
  agrees :
      (now : ℕ) (token : Bytes)
      → AllNotAfter now h
      → is_live now (end_of (Assoc.lookup token s.sessions)) ≡ is_live now (ends ttl h token)

abbrev pub unexpired : ℕ → Option Session → Option Session
unexpired now none = none
unexpired now (some sess) = if expired now sess then none else some sess

Absent-drop_expired :
    (k : Bytes) (now : ℕ) (m : Assoc Session) → Absent k m → Absent k (drop_expired now m)
unfolding drop_expired
Absent-drop_expired k now [] a = tt
Absent-drop_expired k now ((j, sess) ∷ m) a = ground (arith, Absent-drop_expired k now m)

pub drop_expired-HasDistinctKeys :
    (now : ℕ) (m : Assoc Session) → HasDistinctKeys m → HasDistinctKeys (drop_expired now m)
unfolding drop_expired
drop_expired-HasDistinctKeys now [] h = tt
drop_expired-HasDistinctKeys now ((j, sess) ∷ m) h =
    ground (arith, drop_expired-HasDistinctKeys now m, Absent-drop_expired j now m)

pub lookup-drop_expired :
    (token : Bytes) (now : ℕ) (m : Assoc Session)
    → HasDistinctKeys m
    → Assoc.lookup token (drop_expired now m) ≡ unexpired now (Assoc.lookup token m)
unfolding Assoc.lookup drop_expired
lookup-drop_expired token now [] h = refl
lookup-drop_expired token now ((j, sess) ∷ m) h =
    ground (arith, lookup-drop_expired token now m, lookup_of_Absent j m)

filed_agrees :
    (ttl t now : ℕ) (code token : Bytes) (s : SessionStore) (before : Option ℕ)
    → s.ttl ≡ ttl
    → is_live now (end_of (Assoc.lookup token s.sessions)) ≡ is_live now before
    → is_live now (
        end_of (
          Assoc.lookup token (
            Assoc.insert code
              (record { token = code; created = t; expires = t + s.ttl })
              s.sessions)))
      ≡ is_live now (issue ttl t token (some code) before)
filed_agrees ttl t now code token s before same q = ground (
  arith,
  lookup-insert code token (record { token = code; created = t; expires = t + s.ttl }) s.sessions,
)

created-Tracks :
    (ttl : ℕ) (random : Option Bytes) (t : ℕ) (h : List Event) (s : SessionStore)
    → Tracks ttl h s
    → Tracks ttl (created random t ∷ h) (create random t s).1
unfolding create
created-Tracks ttl none t h s k = record {
  same_ttl = k.same_ttl;
  distinct = k.distinct;
  agrees = λ now token n. k.agrees now token n.1;
}
created-Tracks ttl (some b) t h s k =
    let code = url_encode (fill session_token_bytes b) in
    record {
      same_ttl = k.same_ttl;
      distinct =
          insert-HasDistinctKeys code (record { token = code; created = t; expires = t + s.ttl })
            s.sessions k.distinct;
      agrees = λ now token n.
          filed_agrees ttl t now code token s (ends ttl h token) k.same_ttl
            (k.agrees now token n.1);
    }

validated-Tracks :
    (ttl : ℕ) (tok : Bytes) (t : ℕ) (h : List Event) (s : SessionStore)
    → Tracks ttl h s
    → Tracks ttl (validated tok t ∷ h) (validate tok t s).1
unfolding validate delete
validated-Tracks ttl tok t h s k = record {
  same_ttl = ground (arith, k.same_ttl);
  distinct = ground (arith, k.distinct, erase-HasDistinctKeys tok s.sessions);
  agrees = λ now token n. ground (arith, k.agrees now token n.1, lookup-erase tok token s.sessions);
}

deleted-Tracks :
    (ttl : ℕ) (tok : Bytes) (h : List Event) (s : SessionStore)
    → Tracks ttl h s
    → Tracks ttl (deleted tok ∷ h) (delete tok s)
unfolding delete
deleted-Tracks ttl tok h s k = record {
  same_ttl = k.same_ttl;
  distinct = erase-HasDistinctKeys tok s.sessions k.distinct;
  agrees = λ now token n. ground (arith, k.agrees now token n.1, lookup-erase tok token s.sessions);
}

evicted-Tracks :
    (ttl t : ℕ) (h : List Event) (s : SessionStore)
    → Tracks ttl h s
    → Tracks ttl (evicted t ∷ h) (evict_expired t s)
unfolding evict_expired
evicted-Tracks ttl t h s k = record {
  same_ttl = k.same_ttl;
  distinct = drop_expired-HasDistinctKeys t s.sessions k.distinct;
  agrees = λ now token n.
      ground (arith, k.agrees now token n.1, lookup-drop_expired token t s.sessions k.distinct);
}

apply-Tracks :
    (ttl : ℕ) (e : Event) (h : List Event) (s : SessionStore)
    → Tracks ttl h s
    → Tracks ttl (e ∷ h) (apply e s)
apply-Tracks ttl (created random t) h s k = created-Tracks ttl random t h s k
apply-Tracks ttl (validated tok t) h s k = validated-Tracks ttl tok t h s k
apply-Tracks ttl (deleted tok) h s k = deleted-Tracks ttl tok h s k
apply-Tracks ttl (evicted t) h s k = evicted-Tracks ttl t h s k

after-Tracks : (ttl : ℕ) (h : List Event) → Tracks ttl h (after ttl h)
after-Tracks ttl [] = record {
  same_ttl = refl;
  distinct = tt;
  agrees = λ now token n. unfold Assoc.lookup in refl;
}
after-Tracks ttl (e ∷ h) = apply-Tracks ttl e h (after ttl h) (after-Tracks ttl h)

validate-is_live :
    (s : SessionStore) (token : Bytes) (now : ℕ)
    → token ≢ []
    → (validate token now s).0 ≡ is_live now (end_of (Assoc.lookup token s.sessions))
unfolding validate
validate-is_live s token now h = ground arith

-- After any history of calls with a clock that does not go back, a token that is not empty is
-- valid exactly when its last session was not deleted since and has not ended: neither eviction
-- nor the deletion of expired sessions on the way can be seen.
pub validate-ends :
    (ttl : ℕ) (h : List Event) (token : Bytes) (now : ℕ)
    → token ≢ []
    → AllNotAfter now h
    → (validate token now (after ttl h)).0 ≡ is_live now (ends ttl h token)
validate-ends ttl h token now t n =
    validate-is_live (after ttl h) token now t ∙ (after-Tracks ttl h).agrees now token n

-- A session that is found after an eviction was in the store before, and has not ended.
evict_expired-live :
    (ttl : ℕ) (h : List Event) (now : ℕ) (token : Bytes) (sess : Session)
    → Assoc.lookup token (evict_expired now (after ttl h)).sessions ≡ some sess
    → (now ≤ sess.expires) × (Assoc.lookup token (after ttl h).sessions ≡ some sess)
unfolding evict_expired
evict_expired-live ttl h now token sess e =
    ground
      (arith, lookup-drop_expired token now (after ttl h).sessions (after-Tracks ttl h).distinct)

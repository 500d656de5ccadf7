-- ===== src/Auth/Session/Collector.antt =====
-- Which sessions the collector of `StartGC` removes.
use mdtree.Prelude.{
  ℕ, Bytes, ◌≡◌, ◌∙◌, refl, ap, Bool, false, List, [], ◌∷◌, Option, none, some, arith, ltb, ◌||◌,
  if◌then◌else◌,
}
use mdtree.Prelude.Assoc
use mdtree.Prelude.Assoc.{Assoc, HasDistinctKeys}
use mdtree.Auth.Session.{Session, SessionStore, GcEvent, tick, done, evict_expired, run_gc}
use mdtree.Auth.Session.History.{unexpired, lookup-drop_expired, drop_expired-HasDistinctKeys}

-- Whether a tick, before the context is done, comes after the instant.
abbrev pub ticks_after : ℕ → List GcEvent → Bool
ticks_after end [] = false
ticks_after end (done ∷ es) = false
ticks_after end (tick now ∷ es) = ltb end now || ticks_after end es

abbrev pub surviving : List GcEvent → Option Session → Option Session
surviving es none = none
surviving es (some sess) = if ticks_after sess.expires es then none else some sess

surviving_tick :
    (now : ℕ) (es : List GcEvent) (o : Option Session)
    → surviving es (unexpired now o) ≡ surviving (tick now ∷ es) o
surviving_tick now es none = refl
surviving_tick now es (some sess) = ground arith

-- The collector removes a session exactly once it has ticked after the session's end: from then on
-- the session is gone, and until then it is kept as it is.
pub lookup-run_gc :
    (es : List GcEvent) (s : SessionStore) (token : Bytes)
    → HasDistinctKeys s.sessions
    → Assoc.lookup token (run_gc es s).sessions ≡ surviving es (Assoc.lookup token s.sessions)
unfolding run_gc evict_expired
lookup-run_gc [] s token h = none_after (Assoc.lookup token s.sessions)
  where
    none_after : (o : Option Session) → o ≡ surviving [] o
    none_after none = refl
    none_after (some sess) = refl
lookup-run_gc (done ∷ es) s token h = none_after (Assoc.lookup token s.sessions)
  where
    none_after : (o : Option Session) → o ≡ surviving (done ∷ es) o
    none_after none = refl
    none_after (some sess) = refl
lookup-run_gc (tick now ∷ es) s token h =
    lookup-run_gc es (evict_expired now s) token (drop_expired-HasDistinctKeys now s.sessions h)
    ∙ ap (surviving es) (lookup-drop_expired token now s.sessions h)
    ∙ surviving_tick now es (Assoc.lookup token s.sessions)

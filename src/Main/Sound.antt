-- ===== src/Main/Sound.antt =====
-- What holds of the server after it was started, whatever happens from then on.
use mdtree.Prelude.{
  ℕ, ◌+◌, ◌%◌, Bytes, ◌≡◌, ◌∙◌, refl, ap, List, [], ◌∷◌, ◌++◌, arith, Option, none, some,
}
use mdtree.Prelude.Int.{pos_part}
use mdtree.Fs.Node.{Fs}
use mdtree.Search.Index.{new_index}
use mdtree.Search.Index.Updates.{IsWellFormed}
use mdtree.Auth.Session.{SessionStore}
use mdtree.Auth.Session.History.{Event, evicted, after}
use mdtree.Text.{CaseTable}
use mdtree.Config.{Config}
use mdtree.Metrics.{word, add_int64, observe_request, new_metrics, set_index}
use mdtree.Metrics.Recorder
use mdtree.Api.Handler.{World, Request}
use mdtree.Api.Endpoint.Kept.{build-Settled}
use mdtree.Server.{Server, routes, serve_http}
use mdtree.Server.Events.{picked_events, apply_all, serve_picked-Takes}
use mdtree.Main.{
  Library, Step, State, Pending, served, collected, walked, swapped, step, steps, boot, walk_index,
  swap_index,
}

-- The request as the handlers see it.
abbrev seen : Server → Request → Request
seen sv r = record r { remote_addr = sv.real_ip r }

-- The calls of the session store that a step makes, from the state that it meets.
abbrev step_events : Server → Step → State → List Event
step_events sv (served r) x =
    picked_events (sv.pick routes (seen sv r)) (seen sv r)
      (serve_http sv r (x.sessions, x.world)).0.answer.response.status
step_events sv (collected now) x = evicted now ∷ []
step_events sv (walked start ended) x = []
step_events sv (swapped now set) x = []

-- The steps and the calls are newest first.
abbrev pub history : Server → List Step → State → List Event
history sv [] x = []
history sv (e ∷ es) x = step_events sv e (steps sv es x) ++ history sv es x

abbrev one_more : Step → ℕ → ℕ
one_more (served r) n = n + 1
one_more (collected now) n = n
one_more (walked start ended) n = n
one_more (swapped now set) n = n

abbrev pub count_served : List Step → ℕ
count_served [] = 0
count_served (e ∷ es) = one_more e (count_served es)

abbrev pub IsPending : CaseTable → Option Pending → Type 0
IsPending u none = Unit
IsPending u (some p) = IsWellFormed u p.docs

-- The session store is that of its history, every document stands under its own path, made from it,
-- and no path twice, also in a build under way, the index is that of the root, and the requests are
-- counted.
pub record Sound (sv : Server) (ttl : ℕ) (root : Bytes) (h : List Event) (n : ℕ) (x : State)
    : Type 0 where
  pub sessions : x.sessions ≡ after ttl h
  pub documents : IsWellFormed sv.api.cases x.world.index.docs
  pub pending : IsPending sv.api.cases x.pending
  pub rooted : x.world.index.root ≡ root
  pub counted : x.world.metrics.requests ≡ n % word

after-append : (ttl : ℕ) (es h : List Event) → apply_all es (after ttl h) ≡ after ttl (es ++ h)
after-append ttl [] h = refl
after-append ttl (e ∷ es) h = rw (after-append ttl es h) refl

add_one : (n : ℕ) → add_int64 (n % word) 1 ≡ (n + 1) % word
add_one n = omega arith

served-Sound :
    (sv : Server) (ttl : ℕ) (root : Bytes) (h : List Event) (n : ℕ) (r : Request) (x : State)
    → Sound sv ttl root h n x
    → Sound sv ttl root (step_events sv (served r) x ++ h) (n + 1) (step sv (served r) x)
unfolding step serve_http Recorder.middleware observe_request
served-Sound sv ttl root h n r x i =
    let r' = seen sv r in
    let (taken, (settled, requests)) =
      serve_picked-Takes sv r' x.sessions x.world (sv.pick routes r') in
    let (documents, rooted, cap) = settled in
    record {
      sessions = taken ∙ ap (apply_all _) i.sessions ∙ after-append ttl _ h;
      documents = documents i.documents;
      pending = i.pending;
      rooted = rooted ∙ i.rooted;
      counted = ap (λ k. add_int64 k 1) (requests ∙ i.counted) ∙ add_one n;
    }

swapped-Sound :
    (sv : Server) (ttl : ℕ) (root : Bytes) (h : List Event) (n now set : ℕ) (s : SessionStore)
    (w : World) (p : Option Pending)
    → Sound sv ttl root h n (record { sessions = s; world = w; pending = p })
    → Sound sv ttl root h n
        (step sv (swapped now set) (record { sessions = s; world = w; pending = p }))
unfolding step swap_index set_index
swapped-Sound sv ttl root h n now set s w none i = i
swapped-Sound sv ttl root h n now set s w (some p) i = record {
  sessions = i.sessions;
  documents = i.pending;
  pending = tt;
  rooted = i.rooted;
  counted = i.counted;
}

step-Sound :
    (sv : Server) (ttl : ℕ) (root : Bytes) (h : List Event) (n : ℕ) (e : Step) (x : State)
    → Sound sv ttl root h n x
    → Sound sv ttl root (step_events sv e x ++ h) (one_more e n) (step sv e x)
unfolding step walk_index
step-Sound sv ttl root h n (served r) x i = served-Sound sv ttl root h n r x i
step-Sound sv ttl root h n (collected now) x i = record {
  sessions = ap (apply_all (evicted now ∷ [])) i.sessions;
  documents = i.documents;
  pending = i.pending;
  rooted = i.rooted;
  counted = i.counted;
}
step-Sound sv ttl root h n (walked start ended) x i =
    let (documents, _, _) =
      build-Settled sv.api.cases x.world.index (sv.api.found x.world.fs x.world.index.root) start
        ended ended in
    record {
      sessions = i.sessions;
      documents = i.documents;
      pending = documents i.documents;
      rooted = i.rooted;
      counted = i.counted;
    }
step-Sound sv ttl root h n (swapped now set) x i =
    swapped-Sound sv ttl root h n now set x.sessions x.world x.pending i

steps-Sound :
    (sv : Server) (ttl : ℕ) (root : Bytes) (es : List Step) (x : State)
    → Sound sv ttl root [] 0 x
    → Sound sv ttl root (history sv es x) (count_served es) (steps sv es x)
steps-Sound sv ttl root [] x i = i
steps-Sound sv ttl root (e ∷ es) x i =
    step-Sound sv ttl root (history sv es x) (count_served es) e (steps sv es x)
      (steps-Sound sv ttl root es x i)

-- After any requests, ticks of the collector, and walks and swaps of index builds, in any order,
-- from the state that the server is started in: the session store is that of the logins that were answered 200, the
-- logouts and the checks that the requests made and of the ticks; every document of the index,
-- and of a build under way, stands under its own path, made from it, and no path twice; the index is that of the configured
-- root; and the counter of requests is their number modulo 2 ^ 64.
pub boot-Sound :
    (lib : Library) (cfg : Config) (hash : Bytes) (now : ℕ) (fs : Fs) (es : List Step)
    → let (sv, x) = boot lib cfg hash now fs in
      Sound sv
        (pos_part cfg.auth.session_ttl)
        cfg.root
        (history sv es x)
        (count_served es)
        (steps sv es x)
unfolding boot new_index new_metrics
boot-Sound lib cfg hash now fs es =
    let (sv, x) = boot lib cfg hash now fs in
    steps-Sound sv (pos_part cfg.auth.session_ttl) cfg.root es x (record {
      sessions = refl;
      documents = (tt, tt);
      pending = tt;
      rooted = refl;
      counted = refl;
    })

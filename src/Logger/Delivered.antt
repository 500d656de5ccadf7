-- ===== src/Logger/Delivered.antt =====
-- Which sinks a record is delivered to.
use mdtree.Prelude.{
  Bytes, ◌≡◌, ◌∙◌, ap, refl, Bool, true, false, not, ◌&&◌, List, [], ◌∷◌, ◌++◌, Option, none, arith,
  leb, map, if◌then◌else◌, Bool-cases, inl, inr,
}
use mdtree.Text.{CaseTable, trim_space}
use mdtree.Logger.Modules.{
  first_name, newest_name, passes, or_tag, record_module-or_tag, tag_derived, filter-passes,
}
use mdtree.Logger.{
  Level, rank, parse_level, Record, Scope, Target, Sink, fanout_enabled, fanout_handle,
  derive_fanout, Error, Handler, plain, filtered, enabled, handle, derive, Options, Logger,
  or_first, targets, new_logger, log,
}

-- The logger under `With` and `WithGroup`, newest first.
abbrev pub derived : List Scope → Logger → Logger
derived [] l = l
derived (sc ∷ scs) l = let l' = derived scs l in record l' { handler = derive sc l'.handler }

-- The scopes, oldest first.
abbrev pub oldest_first : List Scope → List Scope
oldest_first [] = []
oldest_first (sc ∷ scs) = oldest_first scs ++ (sc ∷ [])

abbrev sink_at : List Scope → Target → Sink
sink_at context t = record { target = t; context = context }

derive_fanout-sink_at :
    (sc : Scope) (c : List Scope) (ts : List Target)
    → derive_fanout sc (map (sink_at c) ts) ≡ map (sink_at (c ++ (sc ∷ []))) ts
unfolding derive_fanout
derive_fanout-sink_at sc c [] = refl
derive_fanout-sink_at sc c (t ∷ ts) =
    ap (λ ss. sink_at (c ++ (sc ∷ [])) t ∷ ss) (derive_fanout-sink_at sc c ts)

-- The handler of a logger that was derived by scopes.
abbrev handler_at : List Bytes → List Target → List Scope → Handler
handler_at [] ts scs = plain (map (sink_at (oldest_first scs)) ts)
handler_at (m ∷ ms) ts scs = filtered (record {
  inner = map (sink_at (oldest_first scs)) ts;
  allowed = map trim_space (m ∷ ms);
  tag = or_tag [] (newest_name scs);
})

derive-handler_at :
    (sc : Scope) (mods : List Bytes) (ts : List Target) (scs : List Scope)
    → derive sc (handler_at mods ts scs) ≡ handler_at mods ts (sc ∷ scs)
unfolding derive
derive-handler_at sc [] ts scs = ap plain (derive_fanout-sink_at sc (oldest_first scs) ts)
derive-handler_at sc (m ∷ ms) ts scs =
    rw (derive_fanout-sink_at sc (oldest_first scs) ts, tag_derived sc (newest_name scs)) refl

derived-handler_at :
    (u : CaseTable) (o : Options) (scs : List Scope)
    → derived scs (new_logger u o) ≡ record {
      level = parse_level u o.level;
      handler = handler_at o.modules (targets o.console) scs;
    }
unfolding new_logger
derived-handler_at u o [] = by_options o.console o.modules
  where
    by_options :
        (console : Bool) (mods : List Bytes)
        → new_logger u (record o { console = console; modules = mods })
          ≡ record { level = parse_level u o.level; handler = handler_at mods (targets console) [] }
    by_options true [] = refl
    by_options false [] = refl
    by_options true (m ∷ ms) = refl
    by_options false (m ∷ ms) = refl
derived-handler_at u o (sc ∷ scs) =
    rw (derived-handler_at u o scs, derive-handler_at sc o.modules (targets o.console) scs) refl

-- What reaches the sinks.
abbrev pub delivery : List Scope → Record → Target → Sink × Record
delivery scs r t = (sink_at (oldest_first scs) t, r)

fanout_handle-delivery :
    (fails : Sink → Record → Option Error) (min : Level) (first : Option Error) (ts : List Target)
    (scs : List Scope) (r : Record)
    → (fanout_handle fails min first (map (sink_at (oldest_first scs)) ts) r).1
      ≡ (if leb (rank min) (rank r.level) then map (delivery scs r) ts else [])
unfolding fanout_handle
fanout_handle-delivery fails min first [] scs r = ground arith
fanout_handle-delivery fails min first (t ∷ ts) scs r =
    elim (Bool-cases (leb (rank min) (rank r.level))) [
      | inl e ↦
          rw
            (
              e,
              fanout_handle-delivery fails min
                  (or_first first (fails (sink_at (oldest_first scs) t) r)) ts scs r,
            )
            (rw e refl)
      | inr e ↦ rw (e, fanout_handle-delivery fails min first ts scs r) (rw e refl)
    ]

fanout_enabled-sink_at :
    (min level : Level) (console : Bool) (c : List Scope)
    → fanout_enabled min level (map (sink_at c) (targets console)) ≡ leb (rank min) (rank level)
unfolding fanout_enabled
fanout_enabled-sink_at min level true c = ground arith
fanout_enabled-sink_at min level false c = ground arith

handler_at-enabled :
    (min level : Level) (console : Bool) (mods : List Bytes) (scs : List Scope)
    → enabled min level (handler_at mods (targets console) scs) ≡ leb (rank min) (rank level)
unfolding enabled
handler_at-enabled min level console [] scs =
    fanout_enabled-sink_at min level console (oldest_first scs)
handler_at-enabled min level console (m ∷ ms) scs =
    fanout_enabled-sink_at min level console (oldest_first scs)

filtered-delivery :
    (fails : Sink → Record → Option Error) (min : Level) (ts : List Target) (m : Bytes)
    (ms : List Bytes) (scs : List Scope) (r : Record)
    → (handle fails min (handler_at (m ∷ ms) ts scs) r).1 ≡ (
        if passes (m ∷ ms) scs r
        then (fanout_handle fails min none (map (sink_at (oldest_first scs)) ts) r).1
        else [])
unfolding handle
filtered-delivery fails min ts m ms scs r =
    rw
      (
        record_module-or_tag (or_tag [] (newest_name scs)) r.attrs,
        filter-passes (map trim_space (m ∷ ms)) (first_name r.attrs) (newest_name scs),
      )
      (go (passes (m ∷ ms) scs r)
        (fanout_handle fails min none (map (sink_at (oldest_first scs)) ts) r))
  where
    go :
        (b : Bool) (x : Option Error × List (Sink × Record))
        → (if not b then (none, []) else x).1 ≡ (if b then x.1 else [])
    go true x = refl
    go false x = refl

handle-delivery :
    (fails : Sink → Record → Option Error) (min : Level) (ts : List Target) (mods : List Bytes)
    (scs : List Scope) (r : Record)
    → (handle fails min (handler_at mods ts scs) r).1 ≡ (
        if passes mods scs r
        then (if leb (rank min) (rank r.level) then map (delivery scs r) ts else [])
        else [])
unfolding handle
handle-delivery fails min ts [] scs r = fanout_handle-delivery fails min none ts scs r
handle-delivery fails min ts (m ∷ ms) scs r =
    filtered-delivery fails min ts m ms scs r
    ∙ ap (λ x. if passes (m ∷ ms) scs r then x else [])
        (fanout_handle-delivery fails min none ts scs r)

-- A record that is logged is delivered exactly once to the log file, and to the console where that
-- is wanted, with all scopes of the logger in order, if its level is at least the logger's and its
-- module, where it has one, is among those that are logged, where those are given; else nowhere.
pub log-delivery :
    (fails : Sink → Record → Option Error) (u : CaseTable) (o : Options) (scs : List Scope)
    (r : Record)
    → (log fails r (derived scs (new_logger u o))).1 ≡ (
        if leb (rank (parse_level u o.level)) (rank r.level) && passes o.modules scs r
        then map (delivery scs r) (targets o.console)
        else [])
unfolding log
log-delivery fails u o scs r =
    rw
      (
        derived-handler_at u o scs,
        handler_at-enabled (parse_level u o.level) r.level o.console o.modules scs,
      )
      (go (leb (rank (parse_level u o.level)) (rank r.level)) (passes o.modules scs r)
        (handle fails (parse_level u o.level) (handler_at o.modules (targets o.console) scs) r)
        (handle-delivery fails (parse_level u o.level) (targets o.console) o.modules scs r))
  where
    go :
        (b p : Bool) (x : Option Error × List (Sink × Record))
        → x.1 ≡ (if p then (if b then map (delivery scs r) (targets o.console) else []) else [])
        → (if b then x else (none, [])).1
          ≡ (if b && p then map (delivery scs r) (targets o.console) else [])
    go true true x h = h
    go true false x h = h
    go false p x h = refl

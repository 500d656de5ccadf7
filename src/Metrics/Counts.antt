-- ===== src/Metrics/Counts.antt =====
-- The counters after a history of calls.
use mdtree.Prelude.{
  ℕ, ◌+◌, ◌%◌, ◌≡◌, refl, Bool, true, false, List, [], ◌∷◌, Option, none, some, arith,
}
use mdtree.Metrics.{
  Metrics, word, new_metrics, observe_request, inc_file_read, inc_file_write, inc_search, set_index,
  add_int64,
}

-- A call that changes the metrics.
pub data Event : Type 0 where
  observed : ℕ → Bool → Event
  read_file wrote_file searched : Event
  indexed : ℕ → ℕ → ℕ → Event

abbrev pub apply : Event → Metrics → Metrics
apply (observed latency is_error) m = observe_request latency is_error m
apply read_file m = inc_file_read m
apply wrote_file m = inc_file_write m
apply searched m = inc_search m
apply (indexed count dur now) m = set_index count dur now m

-- The events, newest first.
abbrev pub after : ℕ → List Event → Metrics
after start [] = new_metrics start
after start (e ∷ es) = apply e (after start es)

-- What the events say, counted without bound.
pub record Tally : Type 0 where
  pub requests : ℕ
  pub errors : ℕ
  pub latency : ℕ
  pub reads : ℕ
  pub writes : ℕ
  pub searches : ℕ

abbrev one_if : Bool → ℕ
one_if true = 1
one_if false = 0

abbrev pub count : Event → Tally → Tally
count (observed latency is_error) t = record t {
  requests = t.requests + 1;
  errors = t.errors + one_if is_error;
  latency = t.latency + latency;
}
count read_file t = record t { reads = t.reads + 1 }
count wrote_file t = record t { writes = t.writes + 1 }
count searched t = record t { searches = t.searches + 1 }
count (indexed n dur now) t = t

abbrev pub tally : List Event → Tally
tally [] = record { requests = 0; errors = 0; latency = 0; reads = 0; writes = 0; searches = 0 }
tally (e ∷ es) = count e (tally es)

-- The newest index build: its count, its duration and its time.
abbrev pub newest_build : List Event → Option (ℕ × ℕ × ℕ)
newest_build [] = none
newest_build (indexed n dur now ∷ es) = some (n, dur, now)
newest_build (e ∷ es) = newest_build es

abbrev build_count : Option (ℕ × ℕ × ℕ) → ℕ
build_count none = 0
build_count (some b) = b.0

abbrev build_time : Option (ℕ × ℕ × ℕ) → Option ℕ
build_time none = none
build_time (some b) = some b.2

abbrev build_duration : Option (ℕ × ℕ × ℕ) → ℕ
build_duration none = 0
build_duration (some b) = b.1

-- The metrics hold the tally modulo 2 ^ 64.
abbrev pub counted : ℕ → Tally → Option (ℕ × ℕ × ℕ) → Metrics
counted start t b = record {
  start_time = start;
  requests = t.requests % word;
  request_errors = t.errors % word;
  total_latency = t.latency % word;
  file_reads = t.reads % word;
  file_writes = t.writes % word;
  searches = t.searches % word;
  indexed_files = build_count b;
  last_index_at = build_time b;
  last_index_duration = build_duration b;
}

add_mod : (a b : ℕ) → add_int64 (a % word) b ≡ (a + b) % word
add_mod a b = omega arith

-- After any calls, each counter is the number of the calls that count into it, and the latency
-- their sum, modulo 2 ^ 64, and the statistics of the index are those of its newest build.
pub after-counted :
    (start : ℕ) (es : List Event) → after start es ≡ counted start (tally es) (newest_build es)
unfolding new_metrics observe_request inc_file_read inc_file_write inc_search set_index
after-counted start [] = refl
after-counted start (observed latency true ∷ es) =
    rw
      (
        after-counted start es,
        add_mod (tally es).requests 1,
        add_mod (tally es).errors 1,
        add_mod (tally es).latency latency,
      )
      refl
after-counted start (observed latency false ∷ es) = ground (arith, after-counted start es)
after-counted start (read_file ∷ es) = ground (arith, after-counted start es)
after-counted start (wrote_file ∷ es) = ground (arith, after-counted start es)
after-counted start (searched ∷ es) = ground (arith, after-counted start es)
after-counted start (indexed n dur now ∷ es) = ground (arith, after-counted start es)

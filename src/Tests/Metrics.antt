-- ===== src/Tests/Metrics.antt =====
-- The counters, the status recorder and the log.
use mdtree.Prelude.{
  ◌-◌, Bytes, bytes, ◌≡◌, refl, true, false, List, [], ◌∷◌, Option, none, map, leb, ◌&&◌,
  if◌then◌else◌,
}
use mdtree.Prelude.Int.{pos}
use mdtree.Tests.Sample.{ascii}
use mdtree.Metrics.{new_metrics, observe_request}
use mdtree.Metrics.Counts.{
  Event, observed, read_file, indexed, after, tally, newest_build, counted, after-counted,
}
use mdtree.Metrics.Recorder.{
  Call, write_header, write, serve, new_wire, middleware, middleware-serve,
}
use mdtree.Logger.{
  Record, Scope, with_attrs, Sink, log, new_logger, Options, parse_level, rank, targets, error,
}
use mdtree.Logger.Delivered.{derived, delivery, log-delivery}
use mdtree.Logger.Modules.{passes}

-- A rebuild, a read, a failed request and an index of three files.
abbrev events : List Event
events = indexed 4 8 60 ∷ read_file ∷ observed 7 true ∷ indexed 3 5 20 ∷ observed 2 false ∷ []

after-counted_example : after 10 events ≡ counted 10 (tally events) (newest_build events)
after-counted_example = after-counted 10 events

-- The second status comes too late.
abbrev calls : List Call
calls = write_header 503 ∷ write (bytes "busy") ∷ write_header 200 ∷ []

middleware-serve_example : middleware calls 5 9 new_wire (new_metrics 0) ≡ (
  serve calls new_wire,
  observe_request (9 - 5) (leb 500 (serve calls new_wire).status) (new_metrics 0),
)
middleware-serve_example = middleware-serve calls 5 9 (new_metrics 0) (refl, (tt, (refl, tt)))

abbrev options : Options
options = record {
  dir = bytes "logs";
  max_backups = pos 3;
  max_size_mb = pos 10;
  level = bytes "warn";
  console = true;
  modules = bytes "http" ∷ bytes "api" ∷ [];
}

abbrev scopes : List Scope
scopes = with_attrs (record { key = bytes "module"; value = bytes "http" } ∷ []) ∷ []

abbrev line : Record
line = record { level = error; message = bytes "boom"; attrs = [] }

abbrev writable : Sink → Record → Option Bytes
writable s r = none

log-delivery_example : (log writable line (derived scopes (new_logger ascii options))).1 ≡ (
    if leb (rank (parse_level ascii (bytes "warn"))) (rank error)
      && passes options.modules scopes line
    then map (delivery scopes line) (targets true)
    else [])
log-delivery_example = log-delivery writable ascii options scopes line

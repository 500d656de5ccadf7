-- ===== src/Api/Search.antt =====
-- The handlers of internal/api/search.go.
use mdtree.Prelude.{◌/◌, bytes, Option, none, some, length}
use mdtree.Prelude.Int.{ℤ, pos}
use mdtree.Search.Index.{stats}
use mdtree.Search.Build.{build}
use mdtree.Search.Query
use mdtree.Config.{atoi}
use mdtree.Auth.Session.{SessionStore, count}
use mdtree.Auth.Middleware.{Response}
use mdtree.Metrics.{inc_search, set_index, snapshot}
use mdtree.Api.Handler.{
  Handler, World, Request, results_value, reindex_value, stats_value, get, write_json,
}

-- A limit that is missing or no number is 0; `atoi` of an empty string is an error too.
abbrev or_zero : Option ℤ → ℤ
or_zero none = pos 0
or_zero (some n) = n

module _ (h : Handler) where
  unfoldable pub search : Request → World → Response × World
  search r w =
      let q = get (bytes "q") r.query in
      let limit = or_zero (atoi (get (bytes "limit") r.query)) in
      let results = Query.search h.cases q limit w.index in
      (
        write_json h 200 (results_value q (length results) results),
        record w { metrics = inc_search w.metrics },
      )

  -- `Build` never fails: its walk passes every error by.
  unfoldable pub reindex : Request → World → Response × World
  reindex r w =
      let c = r.clock in
      let (count, elapsed, idx) =
        build h.cases w.index (h.found w.fs w.index.root) c.build_start c.build_end c.swapped in
      (
        write_json h 200 (reindex_value count (elapsed / 1000)),
        record w { index = idx; metrics = set_index count elapsed c.set w.metrics },
      )

  unfoldable pub stats_of : Request → SessionStore × World → Response × (SessionStore × World)
  stats_of r (s, w) = (
    write_json h 200 (stats_value (snapshot r.clock.snapshot w.metrics) (stats w.index) (count s)),
    (s, w),
  )

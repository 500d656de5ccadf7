-- ===== src/Logger.antt =====
-- internal/logger/logger.go: levels, the fan-out to the log file and the console, and the filter
-- by module. Writing a line is the parameter `fails`: the error of a sink for a record, if it has
-- one; what is delivered to the sinks is returned.
pub mod Modules
pub mod Delivered
use mdtree.Prelude.{
  ℕ, Bytes, bytes, bytes_eq, Bool, true, false, not, ◌&&◌, ◌||◌, List, [], ◌∷◌, ◌++◌, Option, none,
  some, leb, ltb, has, map, if◌then◌else◌,
}
use mdtree.Prelude.Int.{ℤ}
use mdtree.Result.{ok, err}
use mdtree.FilePath.{join}
use mdtree.Fs.Node.{enoent, Node, Fs}
use mdtree.Fs.Reads.{IoResult, stat, node_size}
use mdtree.Fs.Writes.{mkdir_all}
use mdtree.Text.{CaseTable, to_lower, trim_space}

pub data Level : Type 0 where
  debug info warn error : Level

-- The values of package slog, from that of `debug` on.
abbrev pub rank : Level → ℕ
rank debug = 0
rank info = 4
rank warn = 8
rank error = 12

unfoldable pub parse_level : CaseTable → Bytes → Level
parse_level u s =
    let name = to_lower u (trim_space s) in
    if bytes_eq name (bytes "debug")
    then debug
    else if bytes_eq name (bytes "warn") || bytes_eq name (bytes "warning")
    then warn
    else if bytes_eq name (bytes "error")
    then error
    else info

pub record Attr : Type 0 where
  pub key : Bytes
  pub value : Bytes

pub record Record : Type 0 where
  pub level : Level
  pub message : Bytes
  pub attrs : List Attr

-- A call of `WithAttrs` or of `WithGroup`.
pub data Scope : Type 0 where
  with_attrs : List Attr → Scope
  with_group : Bytes → Scope

pub data Target : Type 0 where
  log_file console : Target

-- A handler of package slog, with the scopes that it was derived by, oldest first.
pub record Sink : Type 0 where
  pub target : Target
  pub context : List Scope

abbrev pub derive_sink : Scope → Sink → Sink
derive_sink sc s = record s { context = s.context ++ (sc ∷ []) }

-- All sinks share the level of the logger.
abbrev pub sink_enabled : Level → Level → Sink → Bool
sink_enabled min level s = leb (rank min) (rank level)

-- `fanoutHandler`.
abbrev pub Fanout : Type 0
Fanout = List Sink

abbrev pub Error : Type 0
Error = Bytes

unfoldable pub fanout_enabled : Level → Level → Fanout → Bool
fanout_enabled min level [] = false
fanout_enabled min level (s ∷ ss) = sink_enabled min level s || fanout_enabled min level ss

abbrev pub or_first : Option Error → Option Error → Option Error
or_first none e = e
or_first (some first) e = some first

-- The loop of `Handle`, from the first error so far.
unfoldable pub fanout_handle :
    (Sink → Record → Option Error)
    → Level
    → Option Error
    → Fanout
    → Record
    → Option Error × List (Sink × Record)
fanout_handle fails min first [] r = (first, [])
fanout_handle fails min first (s ∷ ss) r =
    let (e, rest) = fanout_handle fails min (or_first first (fails s r)) ss r in
    let (e', rest') = fanout_handle fails min first ss r in
    if sink_enabled min r.level s then (e, (s, r) ∷ rest) else (e', rest')

unfoldable pub derive_fanout : Scope → Fanout → Fanout
derive_fanout sc ss = map (derive_sink sc) ss

pub record ModuleFilter : Type 0 where
  pub inner : Fanout
  pub allowed : List Bytes
  pub tag : Bytes

pub data Handler : Type 0 where
  plain : Fanout → Handler
  filtered : ModuleFilter → Handler

abbrev pub is_module : Attr → Bool
is_module a = bytes_eq a.key (bytes "module")

-- The first attribute of the record that names a module, else the handler's.
unfoldable pub record_module : Bytes → List Attr → Bytes
record_module tag [] = tag
record_module tag (a ∷ rest) = if is_module a then a.value else record_module tag rest

-- The loop of `WithAttrs`: the last attribute that names a module counts.
unfoldable pub attrs_module : Bytes → List Attr → Bytes
attrs_module tag [] = tag
attrs_module tag (a ∷ rest) = attrs_module (if is_module a then a.value else tag) rest

-- The filter embeds its handler, and so is enabled as that is.
unfoldable pub enabled : Level → Level → Handler → Bool
enabled min level (plain ss) = fanout_enabled min level ss
enabled min level (filtered f) = fanout_enabled min level f.inner

unfoldable pub handle :
    (Sink → Record → Option Error) → Level → Handler → Record → Option Error × List (Sink × Record)
handle fails min (plain ss) r = fanout_handle fails min none ss r
handle fails min (filtered f) r =
    let name = record_module f.tag r.attrs in
    if not (bytes_eq name []) && not (has f.allowed name)
    then (none, [])
    else fanout_handle fails min none f.inner r

abbrev scope_module : Bytes → Scope → Bytes
scope_module tag (with_attrs attrs) = attrs_module tag attrs
scope_module tag (with_group name) = tag

-- `WithAttrs` and `WithGroup`.
unfoldable pub derive : Scope → Handler → Handler
derive sc (plain ss) = plain (derive_fanout sc ss)
derive sc (filtered f) =
    filtered (record f { inner = derive_fanout sc f.inner; tag = scope_module f.tag sc })

pub record Options : Type 0 where
  pub level : Bytes
  pub dir : Bytes
  pub console : Bool
  pub max_backups : ℤ
  pub max_size_mb : ℤ
  pub modules : List Bytes

pub record Logger : Type 0 where
  pub handler : Handler
  pub level : Level

abbrev new_sink : Target → Sink
new_sink t = record { target = t; context = [] }

abbrev pub targets : Bool → List Target
targets true = log_file ∷ console ∷ []
targets false = log_file ∷ []

abbrev pub log_file_name : Bytes
log_file_name = bytes "mdtree.log"

abbrev is_filled : IoResult Node → Bool
is_filled (ok n) = ltb 0 (node_size n)
is_filled (err e) = false

-- The first part of `New`: the directory is made, which fails for the empty path, and the file of
-- an earlier run is rotated.
unfoldable pub start_file : Options → Fs → IoResult Bool × Fs
start_file o fs =
    let (made, fs') = mkdir_all o.dir fs in
    if bytes_eq o.dir [] then (err enoent, fs) else elim made [
      | err e ↦ (err e, fs')
      | ok _ ↦ (ok (is_filled (stat fs' (join o.dir log_file_name))), fs')
    ]

-- The rest of `New`.
unfoldable pub new_logger : CaseTable → Options → Logger
new_logger u o =
    let sinks = map new_sink (targets o.console) in
    record {
      level = parse_level u o.level;
      handler = elim o.modules [
        | [] ↦ plain sinks
        | m ∷ ms ↦ filtered (record { inner = sinks; allowed = map trim_space (m ∷ ms); tag = [] })
      ];
    }

unfoldable pub set_level : CaseTable → Bytes → Logger → Logger
set_level u level l = record l { level = parse_level u level }

unfoldable pub with_module : Bytes → Logger → Logger
with_module name l = record l {
  handler = derive (with_attrs (record { key = bytes "module"; value = name } ∷ [])) l.handler;
}

-- `slog.Logger` asks the handler first whether it is enabled.
unfoldable pub log :
    (Sink → Record → Option Error) → Record → Logger → Option Error × List (Sink × Record)
log fails r l =
    if enabled l.level r.level l.handler then handle fails l.level l.handler r else (none, [])

-- ===== src/Main.antt =====
-- cmd/mdtree/main.go: the commands, and how `run` puts the server together. What the
-- background does is a step like a request. Signals, shutting down and printing are left out.
pub mod Hash
pub mod Sound
use mdtree.Prelude.{
  ℕ, Bytes, bytes, bytes_eq, Bool, true, false, not, ◌&&◌, ◌||◌, List, [], ◌∷◌, Option, none, some,
  ltb, length, ◌==◌, if◌then◌else◌,
}
use mdtree.Prelude.Int.{ℤ, pos_part}
use mdtree.Result.{Result, ok, err}
use mdtree.Text.{CaseTable}
use mdtree.Fs.Node.{Errno, Fs}
use mdtree.Fs.Reads.{IoResult}
use mdtree.Files.Resolver.{new_resolver}
use mdtree.Files.Lister.{new_lister}
use mdtree.Prelude.Assoc.{Assoc}
use mdtree.Search.Index.{Doc, new_index}
use mdtree.Search.Build.{Found, build}
use mdtree.Auth.Token.{Bcrypt, hash_password}
use mdtree.Auth.Session.{SessionStore, new_session_store, evict_expired}
use mdtree.Auth.RateLimiter.{new_rate_limiter}
use mdtree.Config.{Config, ConfigError, Env, Flags, abs_path, configure}
use mdtree.Metrics.{new_metrics, set_index}
use mdtree.Logger.{Options, Logger, new_logger, start_file}
use mdtree.Api.Login.{resolve_password}
use mdtree.Api.Handler.{Handler, World, Request, Value}
use mdtree.Server.{Server, Route, Picked, serve_http}
use mdtree.Server.Static.{Dist}

pub data Command : Type 0 where
  hash_command version_command run_command : Command

-- The switch on the first argument.
unfoldable pub command_of : List Bytes → Command
command_of [] = run_command
command_of (a ∷ rest) =
    if bytes_eq a (bytes "hash")
    then hash_command
    else if bytes_eq a (bytes "version")
        || bytes_eq a (bytes "--version")
        || bytes_eq a (bytes "-v")
    then version_command
    else run_command

-- The parameters of the model, together.
pub record Library : Type 0 where
  pub cases : CaseTable
  pub bcrypt : Bcrypt
  pub decode_yaml : Bytes → Config → Option Config
  pub encode : Value → Bytes
  pub decode : List Bytes → Bytes → Option (Bytes → Bytes)
  pub found : Fs → Bytes → Found
  pub dist : Dist
  pub real_ip : Request → Bytes
  pub show_int : ℕ → Bytes
  pub show_duration : ℕ → Bytes
  pub pick : List (Bytes × Bytes × Route) → Request → Picked

-- The index build of the background between its walk and the swap of the documents: what the walk
-- found, and the time that it took.
pub record Pending : Type 0 where
  pub count : ℕ
  pub elapsed : ℕ
  pub docs : Assoc Doc

pub record State : Type 0 where
  pub sessions : SessionStore
  pub world : World
  pub pending : Option Pending

-- "Build the core components", and the server around them.
unfoldable pub boot : Library → Config → Bytes → ℕ → Fs → Server × State
boot lib cfg password_hash now fs =
    let resolver = new_resolver cfg.root cfg.search.follow_symlinks in
    (
      record {
        api = record {
          cases = lib.cases;
          files = resolver;
          lister = new_lister resolver cfg.search.ignore false;
          auth = record { secure = cfg.auth.cookie_secure };
          bcrypt = lib.bcrypt;
          password_hash = password_hash;
          root = cfg.root;
          encode = lib.encode;
          decode = lib.decode;
          found = lib.found;
        };
        dist = lib.dist;
        real_ip = lib.real_ip;
        show_int = lib.show_int;
        show_duration = lib.show_duration;
        pick = lib.pick;
      },
      record {
        sessions = new_session_store (pos_part cfg.auth.session_ttl);
        pending = none;
        world = record {
          fs = fs;
          index = new_index cfg.root cfg.search.ignore (pos_part cfg.search.max_files);
          metrics = new_metrics now;
          limiter = new_rate_limiter 8 60000000000;
        };
      },
    )

-- The calls of package os take absolute paths here, and the empty path, which leads nowhere.
unfoldable pub log_options : Bytes → Config → Options
log_options cwd cfg = record {
  level = cfg.log.level;
  dir = if bytes_eq cfg.log.dir [] then [] else abs_path cwd cfg.log.dir;
  console = cfg.log.console;
  max_backups = cfg.log.max_backups;
  max_size_mb = cfg.log.max_size_mb;
  modules = [];
}

-- What `run` is given from outside.
pub record Inputs : Type 0 where
  pub env : Env
  pub flags : Flags
  pub cwd : Bytes
  pub config_path : Bytes
  pub config_text : IoResult Bytes
  pub salt : Bytes
  pub random : Option Bytes
  pub now : ℕ

pub data StartError : Type 0 where
  config_error : ConfigError → StartError
  log_error : Errno → StartError
  no_password : StartError

pub record Running : Type 0 where
  pub config : Config
  pub log : Logger
  pub server : Server
  pub state : State

-- From the password on.
abbrev with_password :
    Library → Inputs → Config → Option Bytes → Fs → Result StartError Running × Fs
with_password lib inp cfg none fs = (err no_password, fs)
with_password lib inp cfg (some hash) fs =
    let (server, state) = boot lib cfg hash inp.now fs in
    (
      ok (record {
        config = cfg;
        log = new_logger lib.cases (log_options inp.cwd cfg);
        server = server;
        state = state;
      }),
      fs,
    )

-- From the log file on.
abbrev with_config :
    Library → Inputs → Result ConfigError Config → Fs → Result StartError Running × Fs
with_config lib inp (err e) fs = (err (config_error e), fs)
with_config lib inp (ok cfg) fs =
    let (started, fs') = start_file (log_options inp.cwd cfg) fs in
    elim started [
      | err e ↦ (err (log_error e), fs')
      | ok _ ↦ with_password lib inp cfg (resolve_password lib.bcrypt inp.salt inp.random cfg) fs'
    ]

-- `run`, up to the point where requests are served.
unfoldable pub run : Library → Inputs → Fs → Result StartError Running × Fs
run lib inp fs =
    with_config lib inp
      (configure lib.cases lib.decode_yaml inp.env inp.flags inp.cwd inp.config_path inp.config_text
        fs)
      fs

-- What happens from then on: a request, a tick of the collector, and the two halves of the index
-- build, with their clock readings.
pub data Step : Type 0 where
  served : Request → Step
  collected : ℕ → Step
  walked : ℕ → ℕ → Step
  swapped : ℕ → ℕ → Step

unfoldable pub walk_index : Handler → ℕ → ℕ → World → Pending
walk_index h start ended w =
    let (count, elapsed, idx) =
      build h.cases w.index (h.found w.fs w.index.root) start ended ended in
    record { count = count; elapsed = elapsed; docs = idx.docs }

unfoldable pub swap_index : Pending → ℕ → ℕ → World → World
swap_index p now set w = record w {
  index = record w.index { docs = p.docs; built_at = now; last_build = p.elapsed };
  metrics = set_index p.count p.elapsed set w.metrics;
}

abbrev swap_pending : Option Pending → ℕ → ℕ → World → World
swap_pending none now set w = w
swap_pending (some p) now set w = swap_index p now set w

unfoldable pub step : Server → Step → State → State
step sv (served r) x =
    let (s, w) = (serve_http sv r (x.sessions, x.world)).1 in record x { sessions = s; world = w }
step sv (collected now) x = record x { sessions = evict_expired now x.sessions }
step sv (walked start ended) x = record x { pending = some (walk_index sv.api start ended x.world) }
step sv (swapped now set) x = record x {
  world = swap_pending x.pending now set x.world;
  pending = none;
}

-- The steps, newest first.
abbrev pub steps : Server → List Step → State → State
steps sv [] x = x
steps sv (e ∷ es) x = step sv e (steps sv es x)

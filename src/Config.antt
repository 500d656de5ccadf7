-- ===== src/Config.antt =====
-- `Config` of internal/config/config.go: defaults, file, environment, and the checks at startup.
-- Durations are in nanoseconds.
pub mod Usable
use mdtree.Prelude.{
  ℕ, ◌+◌, ◌-◌, ◌*◌, Bytes, bytes, bytes_eq, Bool, true, false, not, ◌&&◌, ◌||◌, List, [], ◌∷◌,
  Option, none, some, has, leb, ltb, ◌==◌, if◌then◌else◌,
}
use mdtree.Prelude.Int.{ℤ, pos, negsuc, ltb_ℤ}
use mdtree.Result.{Result, ok, err, ◌>>=◌}
use mdtree.Text.{CaseTable, to_lower, trim_space}
use mdtree.FilePath.{is_abs, clean, join}
use mdtree.Fs.Node.{Errno, enoent, Fs}
use mdtree.Fs.Reads.{IoResult, stat}
use mdtree.Fs.Reads

pub record ServerConfig : Type 0 where
  pub host : Bytes
  pub port : ℤ

pub record AuthConfig : Type 0 where
  pub password : Bytes
  pub password_hash : Bytes
  pub session_ttl : ℤ
  pub cookie_secure : Bool

pub record LogConfig : Type 0 where
  pub level : Bytes
  pub dir : Bytes
  pub console : Bool
  pub max_backups : ℤ
  pub max_size_mb : ℤ

pub record SearchConfig : Type 0 where
  pub ignore : List Bytes
  pub follow_symlinks : Bool
  pub max_files : ℤ

pub record Config : Type 0 where
  pub server : ServerConfig
  pub root : Bytes
  pub auth : AuthConfig
  pub log : LogConfig
  pub search : SearchConfig

abbrev pub default_config : Config
default_config = record {
  server = record { host = bytes "127.0.0.1"; port = pos 8080 };
  root = bytes "/";
  auth = record {
    password = [];
    password_hash = [];
    session_ttl = pos 86400000000000;
    cookie_secure = false;
  };
  log = record {
    level = bytes "info";
    dir = bytes "./logs";
    console = true;
    max_backups = pos 5;
    max_size_mb = pos 10;
  };
  search = record {
    ignore =
        bytes ".git" ∷ bytes "node_modules" ∷ bytes ".cache" ∷ bytes "vendor" ∷ bytes ".Trash" ∷ [];
    follow_symlinks = false;
    max_files = pos 200000;
  };
}

pub data ConfigError : Type 0 where
  parse_config bad_log_level root_not_dir bad_session_ttl port_out_of_range : ConfigError
  read_config root_inaccessible : Errno → ConfigError

-- `strconv.Atoi`: a sign at most, then digits, within the range of a 64-bit integer.
unfoldable pub digits : ℕ → Bytes → Option ℕ
digits n [] = some n
digits n (c ∷ s) =
    let rest = digits (n * 10 + (c - b'0')) s in if leb b'0' c && leb c b'9' then rest else none

abbrev positive : Option ℕ → Option ℤ
positive none = none
positive (some n) = if ltb n 9223372036854775808 then some (pos n) else none

abbrev negative : Option ℕ → Option ℤ
negative none = none
negative (some n) =
    if n == 0
    then some (pos 0)
    else if leb n 9223372036854775808
    then some (negsuc (n - 1))
    else none

unfoldable pub atoi : Bytes → Option ℤ
atoi [] = none
atoi (c ∷ s) =
    if c == b'-'
    then (if bytes_eq s [] then none else negative (digits 0 s))
    else if c == b'+'
    then (if bytes_eq s [] then none else positive (digits 0 s))
    else positive (digits 0 (c ∷ s))

-- `os.Getenv`: a variable that is not set is empty.
abbrev pub Env : Type 0
Env = Bytes → Bytes

abbrev pub or_keep : Bytes → Bytes → Bytes
or_keep v old = if bytes_eq v [] then old else v

abbrev pub or_old : Option ℤ → ℤ → ℤ
or_old none old = old
or_old (some p) old = p

unfoldable pub apply_env : Env → Config → Config
apply_env env cfg = record {
  server = record {
    host = or_keep (env (bytes "MDTREE_HOST")) cfg.server.host;
    port = or_old (atoi (env (bytes "MDTREE_PORT"))) cfg.server.port;
  };
  root = or_keep (env (bytes "MDTREE_ROOT")) cfg.root;
  auth = record cfg.auth {
    password = or_keep (env (bytes "MDTREE_PASSWORD")) cfg.auth.password;
    password_hash = or_keep (env (bytes "MDTREE_PASSWORD_HASH")) cfg.auth.password_hash;
  };
  log = record cfg.log {
    level = or_keep (env (bytes "MDTREE_LOG_LEVEL")) cfg.log.level;
    dir = or_keep (env (bytes "MDTREE_LOG_DIR")) cfg.log.dir;
  };
  search = cfg.search;
}

-- The file as `os.ReadFile` yields it, over the defaults; the decoder of package yaml overwrites
-- what the file names. A file that is missing is no error.
unfoldable pub load_file :
    (Bytes → Config → Option Config) → Bytes → IoResult Bytes → Result ConfigError Config
load_file decode path contents = if bytes_eq path [] then ok default_config else elim contents [
  | ok text ↦ elim (decode text default_config) [ none ↦ err parse_config | some cfg ↦ ok cfg ]
  | err enoent ↦ ok default_config
  | err e ↦ err (read_config e)
]

unfoldable pub load :
    (Bytes → Config → Option Config) → Env → Bytes → IoResult Bytes → Result ConfigError Config
load decode env path contents = do cfg ← load_file decode path contents; ok (apply_env env cfg)

-- `filepath.Abs`, from the working directory.
unfoldable pub abs_path : Bytes → Bytes → Bytes
abs_path cwd p = if is_abs p then clean p else join cwd p

unfoldable pub normalize : CaseTable → Bytes → Config → Config
normalize u cwd cfg = record cfg {
  root = clean (abs_path cwd cfg.root);
  log = record cfg.log { level = to_lower u (trim_space cfg.log.level) };
  server = record cfg.server { host = trim_space cfg.server.host };
}

abbrev pub log_levels : List Bytes
log_levels = bytes "debug" ∷ bytes "info" ∷ bytes "warn" ∷ bytes "error" ∷ []

unfoldable pub validate : Fs → Config → Result ConfigError (Unit {0})
validate fs cfg =
    if ltb_ℤ cfg.server.port (pos 1) || ltb_ℤ (pos 65535) cfg.server.port
    then err port_out_of_range
    else if not (has log_levels cfg.log.level)
    then err bad_log_level
    else elim (stat fs cfg.root) [
      | err e ↦ err (root_inaccessible e)
      | ok info ↦
          if not (Reads.is_dir info)
          then err root_not_dir
          else if ltb_ℤ (pos 0) cfg.auth.session_ttl
          then ok tt
          else err bad_session_ttl
    ]

-- The flags of cmd/mdtree/main.go; an empty string or a zero stands for a flag that is not given.
pub record Flags : Type 0 where
  pub host : Bytes
  pub port : ℤ
  pub root : Bytes
  pub log_level : Bytes

abbrev is_zero : ℤ → Bool
is_zero (pos n) = n == 0
is_zero (negsuc n) = false

abbrev pub or_keep_port : ℤ → ℤ → ℤ
or_keep_port p old = if is_zero p then old else p

unfoldable pub apply_flags : Flags → Config → Config
apply_flags flags cfg = record cfg {
  server = record {
    host = or_keep flags.host cfg.server.host;
    port = or_keep_port flags.port cfg.server.port;
  };
  root = or_keep flags.root cfg.root;
  log = record cfg.log { level = or_keep flags.log_level cfg.log.level };
}

-- What `run` does before the server is put together.
unfoldable pub configure :
    CaseTable
    → (Bytes → Config → Option Config)
    → Env
    → Flags
    → Bytes
    → Bytes
    → IoResult Bytes
    → Fs
    → Result ConfigError Config
configure u decode env flags cwd path contents fs = do
  loaded ← load decode env path contents
  let cfg : Config = normalize u cwd (apply_flags flags loaded)
  checked ← validate fs cfg
  ok cfg

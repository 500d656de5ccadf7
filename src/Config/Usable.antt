-- ===== src/Config/Usable.antt =====
-- What holds of a configuration with which the server is started.
use mathlib.Core.Path.{subst}
use mdtree.Prelude.{
  ℕ, zero, suc, none, some, refl, ◌≢◌, ◌⊎◌, Bytes, ◌≡◌, inl, inr, sym, ap, ◌∙◌, [], ◌∷◌, ◌++◌,
  bytes, true, Option, arith, has, Bool-cases,
}
use mdtree.Prelude.Int.{ℤ, negsuc, pos, ◌≤ℤ◌}
use mdtree.Result.{Result, ok, err, ◌>>=◌, bind-eq-ok}
use mdtree.Text.{CaseTable, to_lower, trim_space}
use mdtree.FilePath.Join.{join-cons}
use mdtree.Fs.Temp.{Result-cases}
use mdtree.FilePath.{slash, is_abs, clean}
use mdtree.FilePath.Clean.{clean_idempotent, is_abs-clean}
use mdtree.Fs.Node.{Node, Fs}
use mdtree.Fs.Reads.{IoResult, stat}
use mdtree.Fs.Reads
use mdtree.Config.{
  Config, ConfigError, Env, Flags, log_levels, abs_path, normalize, validate, configure, load,
  load_file, apply_env, apply_flags, or_keep, or_keep_port, or_old, atoi,
}

-- A port, a known level, a root that is an absolute clean path to a directory, and a lifetime.
pub record IsUsable (fs : Fs) (cfg : Config) : Type 0 where
  pub port_low : pos 1 ≤ℤ cfg.server.port
  pub port_high : cfg.server.port ≤ℤ pos 65535
  pub level : has log_levels cfg.log.level ≡ true
  pub root_abs : is_abs cfg.root ≡ true
  pub root_clean : clean cfg.root ≡ cfg.root
  pub node : Node
  pub root_there : stat fs cfg.root ≡ ok node
  pub root_dir : Reads.is_dir node ≡ true
  pub lives : pos 1 ≤ℤ cfg.auth.session_ttl

validate_port :
    (fs : Fs) (cfg : Config)
    → validate fs cfg ≡ ok tt
    → (pos 1 ≤ℤ cfg.server.port) × (cfg.server.port ≤ℤ pos 65535)
unfolding validate
validate_port fs cfg q = ground arith

validate_level :
    (fs : Fs) (cfg : Config) → validate fs cfg ≡ ok tt → has log_levels cfg.log.level ≡ true
unfolding validate
validate_level fs cfg q = ground arith

validate_ttl : (fs : Fs) (cfg : Config) → validate fs cfg ≡ ok tt → pos 1 ≤ℤ cfg.auth.session_ttl
unfolding validate
validate_ttl fs cfg q = ground arith

validate_root :
    (fs : Fs) (cfg : Config)
    → validate fs cfg ≡ ok tt
    → (n : Node) × (stat fs cfg.root ≡ ok n) × (Reads.is_dir n ≡ true)
unfolding validate
validate_root fs cfg q = elim (Result-cases (stat fs cfg.root)) [
  | inl (n, e) ↦ (n, e, ground arith)
  | inr (c, e) ↦ absurd (ground arith)
]

is_abs-abs_path : (cwd p : Bytes) → is_abs cwd ≡ true → is_abs (abs_path cwd p) ≡ true
unfolding abs_path is_abs
is_abs-abs_path [] p h = absurd (ground arith)
is_abs-abs_path (c ∷ cwd) p h = elim (Bool-cases (is_abs p)) [
  | inl e ↦ rw e (is_abs-clean p e)
  | inr e ↦ rw (e, join-cons c cwd p) (is_abs-clean ((c ∷ cwd) ++ (slash ∷ p)) h)
]

normalize-IsUsable :
    (u : CaseTable) (cwd : Bytes) (fs : Fs) (cfg : Config)
    → is_abs cwd ≡ true
    → validate fs (normalize u cwd cfg) ≡ ok tt
    → IsUsable fs (normalize u cwd cfg)
unfolding normalize
normalize-IsUsable u cwd fs cfg a v =
    let fine = is_abs-abs_path cwd cfg.root a in
    let ports = validate_port fs (normalize u cwd cfg) v in
    let (n, there, is_dir) = validate_root fs (normalize u cwd cfg) v in
    record {
      port_low = ports.0;
      port_high = ports.1;
      level = validate_level fs (normalize u cwd cfg) v;
      root_abs = is_abs-clean (abs_path cwd cfg.root) fine;
      root_clean = clean_idempotent (abs_path cwd cfg.root) fine;
      node = n;
      root_there = there;
      root_dir = is_dir;
      lives = validate_ttl fs (normalize u cwd cfg) v;
    }

abbrev value : {A : Type 0} → A → Result ConfigError A → A
value a (ok b) = b
value a (err e) = a

load-apply_env :
    (decode : Bytes → Config → Option Config) (env : Env) (path : Bytes) (contents : IoResult Bytes)
    (loaded : Config)
    → load decode env path contents ≡ ok loaded
    → (base : Config) × (load_file decode path contents ≡ ok base) × (loaded ≡ apply_env env base)
unfolding load
load-apply_env decode env path contents loaded q =
    let (base, e, q₁) = bind-eq-ok (load_file decode path contents) (λ c. ok (apply_env env c)) q in
    (base, e, sym (ap (value loaded) q₁))

checked-normalize :
    (u : CaseTable) (cwd : Bytes) (fs : Fs) (c cfg : Config)
    → (validate fs (normalize u cwd c) >>= λ _. ok (normalize u cwd c)) ≡ ok cfg
    → (validate fs (normalize u cwd c) ≡ ok tt) × (normalize u cwd c ≡ cfg)
checked-normalize u cwd fs c cfg q =
    let (_, v, q₁) = bind-eq-ok (validate fs (normalize u cwd c)) (λ _. ok (normalize u cwd c)) q in
    (v, ap (value cfg) q₁)

-- The steps of a start that goes through.
configure-load :
    (u : CaseTable) (decode : Bytes → Config → Option Config) (env : Env) (flags : Flags)
    (cwd path : Bytes) (contents : IoResult Bytes) (fs : Fs) (cfg : Config)
    → configure u decode env flags cwd path contents fs ≡ ok cfg
    → (loaded : Config) × (load decode env path contents ≡ ok loaded)
      × (validate fs (normalize u cwd (apply_flags flags loaded)) ≡ ok tt)
      × (normalize u cwd (apply_flags flags loaded) ≡ cfg)
unfolding configure
configure-load u decode env flags cwd path contents fs cfg q =
    let (loaded, l, q₁) =
      bind-eq-ok (load decode env path contents)
        (λ c. validate fs (normalize u cwd (apply_flags flags c)) >>= λ _.
          ok (normalize u cwd (apply_flags flags c)))
        q in
    let (v, same) = checked-normalize u cwd fs (apply_flags flags loaded) cfg q₁ in
    (loaded, l, v, same)

-- Where the server is started from an absolute working directory, its port lies within 1 and 65535,
-- the log level is one of the four, the root is an absolute, clean path to a directory, and
-- sessions live for a positive time.
pub configure-IsUsable :
    (u : CaseTable) (decode : Bytes → Config → Option Config) (env : Env) (flags : Flags)
    (cwd path : Bytes) (contents : IoResult Bytes) (fs : Fs) (cfg : Config)
    → is_abs cwd ≡ true
    → configure u decode env flags cwd path contents fs ≡ ok cfg
    → IsUsable fs cfg
configure-IsUsable u decode env flags cwd path contents fs cfg a q =
    let (loaded, _, v, same) = configure-load u decode env flags cwd path contents fs cfg q in
    subst (IsUsable fs) same (normalize-IsUsable u cwd fs (apply_flags flags loaded) a v)

-- The value of a setting: the flag where it is given, or else the variable where it is set, or else
-- what the file and the defaults say.
abbrev IsChosen : Bytes → Bytes → Bytes → Bytes → Type 0
IsChosen flag variable base v =
    ((flag ≢ []) × (v ≡ flag))
    ⊎ ((flag ≡ []) × (variable ≢ []) × (v ≡ variable))
    ⊎ ((flag ≡ []) × (variable ≡ []) × (v ≡ base))

-- The same for the port, where a variable counts only when it is a number.
abbrev IsChosenPort : ℤ → Option ℤ → ℤ → ℤ → Type 0
IsChosenPort flag variable base v =
    ((flag ≢ pos 0) × (v ≡ flag))
    ⊎ ((flag ≡ pos 0) × (variable ≡ some v))
    ⊎ ((flag ≡ pos 0) × (variable ≡ none) × (v ≡ base))

or_keep-IsChosen :
    (flag variable base : Bytes)
    → IsChosen flag variable base (or_keep flag (or_keep variable base))
or_keep-IsChosen flag variable base = ground arith

pos_suc : (n : ℕ) → pos (suc n) ≢ pos 0
pos_suc n e = cc

negsuc_pos : (n : ℕ) → negsuc n ≢ pos 0
negsuc_pos n e = cc

or_keep_port-IsChosenPort :
    (flag : ℤ) (variable : Option ℤ) (base : ℤ)
    → IsChosenPort flag variable base (or_keep_port flag (or_old variable base))
or_keep_port-IsChosenPort (pos zero) none base = inr (inr (refl, refl, refl))
or_keep_port-IsChosenPort (pos zero) (some p) base = inr (inl (refl, refl))
or_keep_port-IsChosenPort (pos (suc n)) variable base = inl (pos_suc n, ground arith)
or_keep_port-IsChosenPort (negsuc n) variable base = inl (negsuc_pos n, refl)

-- Which configuration the server is started with, given that of the file over the defaults: the
-- flag of a setting comes before its variable, and this before the file.
pub record FollowsOrder (u : CaseTable) (env : Env) (flags : Flags) (cwd : Bytes)
    (base cfg : Config) : Type 0 where
  pub host : Bytes
  pub root : Bytes
  pub level : Bytes
  pub port_from :
      IsChosenPort flags.port (atoi (env (bytes "MDTREE_PORT"))) base.server.port cfg.server.port
  pub host_from : IsChosen flags.host (env (bytes "MDTREE_HOST")) base.server.host host
  pub root_from : IsChosen flags.root (env (bytes "MDTREE_ROOT")) base.root root
  pub level_from : IsChosen flags.log_level (env (bytes "MDTREE_LOG_LEVEL")) base.log.level level
  pub host_is : cfg.server.host ≡ trim_space host
  pub root_is : cfg.root ≡ clean (abs_path cwd root)
  pub level_is : cfg.log.level ≡ to_lower u (trim_space level)

-- The port, the host, the root and the log level of a configuration with which the server is started
-- are those of the flag where it is given; where it is not, those of the environment's variable,
-- where it is set, and for the port is a number; and where neither is, those of the file over the
-- defaults. The host and the level are then trimmed, the level is put in lower case, and the root is
-- made absolute and clean.
pub configure-precedence :
    (u : CaseTable) (decode : Bytes → Config → Option Config) (env : Env) (flags : Flags)
    (cwd path : Bytes) (contents : IoResult Bytes) (fs : Fs) (cfg : Config)
    → configure u decode env flags cwd path contents fs ≡ ok cfg
    → (base : Config) × (load_file decode path contents ≡ ok base)
      × FollowsOrder u env flags cwd base cfg
unfolding normalize apply_flags apply_env
configure-precedence u decode env flags cwd path contents fs cfg q =
    let (loaded, l, _, same) = configure-load u decode env flags cwd path contents fs cfg q in
    let (base, b, e) = load-apply_env decode env path contents loaded l in
    let final : Config = normalize u cwd (apply_flags flags (apply_env env base)) in
    let whole : final ≡ cfg = sym (ap (λ c. normalize u cwd (apply_flags flags c)) e) ∙ same in
    (
      base,
      b,
      subst (FollowsOrder u env flags cwd base) whole (record {
        host = or_keep flags.host (or_keep (env (bytes "MDTREE_HOST")) base.server.host);
        root = or_keep flags.root (or_keep (env (bytes "MDTREE_ROOT")) base.root);
        level = or_keep flags.log_level (or_keep (env (bytes "MDTREE_LOG_LEVEL")) base.log.level);
        port_from =
            or_keep_port-IsChosenPort flags.port (atoi (env (bytes "MDTREE_PORT")))
              base.server.port;
        host_from = or_keep-IsChosen flags.host (env (bytes "MDTREE_HOST")) base.server.host;
        root_from = or_keep-IsChosen flags.root (env (bytes "MDTREE_ROOT")) base.root;
        level_from =
            or_keep-IsChosen flags.log_level (env (bytes "MDTREE_LOG_LEVEL")) base.log.level;
        host_is = refl;
        root_is = refl;
        level_is = refl;
      }),
    )

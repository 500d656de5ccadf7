-- ===== src/Metrics.antt =====
-- `Metrics` of internal/metrics/metrics.go. A method runs whole, as under the lock, and takes the
-- clock reading of its call. A 64-bit integer is its bit pattern, a number below 2 ^ 64.
pub mod Counts
pub mod Recorder
use mdtree.Prelude.{
  ℕ, zero, suc, ◌+◌, ◌-◌, ◌/◌, ◌%◌, Bool, true, false, Option, none, some, ltb, if◌then◌else◌,
}
use mdtree.Prelude.Int.{ℤ, pos, negsuc}

-- 2 ^ 64 and 2 ^ 63.
abbrev pub word : ℕ
word = 18446744073709551616

abbrev pub half_word : ℕ
half_word = 9223372036854775808

abbrev pub add_int64 : ℕ → ℕ → ℕ
add_int64 a b = (a + b) % word

-- The number that a bit pattern stands for, in two's complement.
abbrev pub int64 : ℕ → ℤ
int64 n = if ltb n half_word then pos n else negsuc (word - 1 - n)

abbrev negated : ℕ → ℤ
negated zero = pos zero
negated (suc m) = negsuc m

-- Division rounds towards zero.
abbrev pub div_int64 : ℤ → ℕ → ℤ
div_int64 (pos n) d = pos (n / d)
div_int64 (negsuc n) d = negated ((n + 1) / d)

-- An instant of zero is no instant: `last_index_at` is `none` where the code has the zero time.
pub record Metrics : Type 0 where
  pub start_time : ℕ
  pub requests : ℕ
  pub request_errors : ℕ
  pub total_latency : ℕ
  pub file_reads : ℕ
  pub file_writes : ℕ
  pub searches : ℕ
  pub indexed_files : ℕ
  pub last_index_at : Option ℕ
  pub last_index_duration : ℕ

unfoldable pub new_metrics : ℕ → Metrics
new_metrics now = record {
  start_time = now;
  requests = 0;
  request_errors = 0;
  total_latency = 0;
  file_reads = 0;
  file_writes = 0;
  searches = 0;
  indexed_files = 0;
  last_index_at = none;
  last_index_duration = 0;
}

unfoldable pub observe_request : ℕ → Bool → Metrics → Metrics
observe_request latency is_error m = record m {
  requests = add_int64 m.requests 1;
  total_latency = add_int64 m.total_latency latency;
  request_errors = if is_error then add_int64 m.request_errors 1 else m.request_errors;
}

unfoldable pub inc_file_read : Metrics → Metrics
inc_file_read m = record m { file_reads = add_int64 m.file_reads 1 }

unfoldable pub inc_file_write : Metrics → Metrics
inc_file_write m = record m { file_writes = add_int64 m.file_writes 1 }

unfoldable pub inc_search : Metrics → Metrics
inc_search m = record m { searches = add_int64 m.searches 1 }

unfoldable pub set_index : ℕ → ℕ → ℕ → Metrics → Metrics
set_index count dur now m = record m {
  indexed_files = count;
  last_index_at = some now;
  last_index_duration = dur;
}

-- The quotients of floats are left as their parts: the uptime in nanoseconds, the average latency
-- as microseconds and the number of requests (`none` for 0), the build time in microseconds.
pub record Snapshot : Type 0 where
  pub uptime : ℕ
  pub requests : ℤ
  pub request_errors : ℤ
  pub avg_latency : Option (ℤ × ℤ)
  pub file_reads : ℤ
  pub file_writes : ℤ
  pub searches : ℤ
  pub indexed_files : ℕ
  pub last_index_at : Option ℕ
  pub last_index_build : ℤ

-- `m.requests > 0`.
abbrev pub is_positive : ℤ → Bool
is_positive (pos n) = ltb 0 n
is_positive (negsuc n) = false

unfoldable pub snapshot : ℕ → Metrics → Snapshot
snapshot now m = record {
  uptime = now - m.start_time;
  requests = int64 m.requests;
  request_errors = int64 m.request_errors;
  avg_latency =
      if is_positive (int64 m.requests)
      then some (div_int64 (int64 m.total_latency) 1000, int64 m.requests)
      else none;
  file_reads = int64 m.file_reads;
  file_writes = int64 m.file_writes;
  searches = int64 m.searches;
  indexed_files = m.indexed_files;
  last_index_at = m.last_index_at;
  last_index_build = div_int64 (int64 m.last_index_duration) 1000;
}

-- ===== src/Clickhouse/Settings.antt =====
-- clickhouse/options.go: the settings that a client's options become. Durations are nanoseconds; an
-- int64 or an int is positive, `pos n`, or negative, `negsuc n` for -n - 1; TLS and the transport
-- function are handed on and are not modelled.
pub mod Timeouts
use dev_health_go.Base.{
  ℕ, suc, zero, ◌+◌, ◌*◌, ◌^◌, ◌==◌, Bool, true, false, not, ◌&&◌, ◌||◌, ltb, leb, Option, none,
  some, if◌then◌else◌,
}

pub data ℤ : Type 0 where
  pos : ℕ → ℤ
  negsuc : ℕ → ℤ

abbrev pub second : ℕ
second = 1_000_000_000

abbrev pub default_max_execution_time : ℕ
default_max_execution_time = 10

-- 64 MiB
abbrev pub default_max_bytes_to_read : ℕ
default_max_bytes_to_read = 67_108_864

-- The part of Options that the settings come from; `none` is a nil pointer.
pub record Options : Type 0 where
  pub dial_timeout : ℤ
  pub read_timeout : ℤ
  pub max_open_conns : ℤ
  pub max_idle_conns : ℤ
  pub conn_max_lifetime : ℤ
  pub query_timeout : ℤ
  pub max_execution_time : ℕ  -- uint
  pub max_result_rows : Option ℕ
  pub max_bytes_to_read : Option ℕ

-- The part of the driver's options that `applyOptions` sets from numbers.
pub record Configured : Type 0 where
  pub dial_timeout : ℤ
  pub read_timeout : ℤ
  pub max_open_conns : ℤ
  pub max_idle_conns : ℤ
  pub conn_max_lifetime : ℤ
  pub has_compression : Bool
  pub max_execution_time : ℕ
  pub max_result_rows : ℕ
  pub max_bytes_to_read : ℕ

abbrev pub is_positive : ℤ → Bool
is_positive (pos zero) = false
is_positive (pos (suc n)) = true
is_positive (negsuc n) = false

-- `defaultDuration` and `defaultPositive`
abbrev pub default_positive : ℤ → ℤ → ℤ
default_positive value fallback = if is_positive value then value else fallback

-- `optionDuration` and `optionPositive`
abbrev pub option_positive : ℤ → ℤ → ℤ → ℤ
option_positive value configured fallback =
    if is_positive value then value else default_positive configured fallback

-- `defaultPositiveUint`
abbrev pub default_positive_uint : ℕ → ℕ → ℕ
default_positive_uint value fallback = if ltb 0 value then value else fallback

-- `resolveCeilingUint` and `resolveCeilingUint64`
abbrev pub resolve_ceiling : Option ℕ → ℕ → ℕ
resolve_ceiling none fallback = fallback
resolve_ceiling (some n) fallback = n

unfoldable pub max_execution_time : Options → ℕ
max_execution_time o = default_positive_uint o.max_execution_time default_max_execution_time

-- 1<<63 - 1 ns
abbrev pub max_duration : ℕ
max_duration = 9_223_372_036_854_775_807

-- `executionDuration`: a uint of 2^63 or more is a negative Duration.
unfoldable pub execution_duration : ℕ → ℕ
execution_duration seconds =
    if seconds == 0 || ltb max_duration seconds || ltb 9_223_372_036 seconds
    then max_duration
    else seconds * second

abbrev pub below_limit : ℤ → ℕ → ℕ
below_limit (pos zero) limit = limit
below_limit (pos (suc n)) limit = if ltb (suc n) limit then suc n else limit
below_limit (negsuc n) limit = limit

-- `queryTimeoutForOptions`
unfoldable pub query_timeout_for_options : Options → ℕ
query_timeout_for_options o =
    below_limit o.query_timeout (execution_duration (max_execution_time o))

-- `applyOptions`
unfoldable pub apply_options : Configured → Options → Configured
apply_options c o = record {
  dial_timeout = option_positive o.dial_timeout c.dial_timeout (pos (5 * second));
  read_timeout = option_positive o.read_timeout c.read_timeout (pos (15 * second));
  max_open_conns = option_positive o.max_open_conns c.max_open_conns (pos 8);
  max_idle_conns = option_positive o.max_idle_conns c.max_idle_conns (pos 4);
  conn_max_lifetime = option_positive o.conn_max_lifetime c.conn_max_lifetime (pos (1800 * second));
  has_compression = true;
  max_execution_time = max_execution_time o;
  max_result_rows = resolve_ceiling o.max_result_rows 1000;
  max_bytes_to_read = resolve_ceiling o.max_bytes_to_read default_max_bytes_to_read;
}

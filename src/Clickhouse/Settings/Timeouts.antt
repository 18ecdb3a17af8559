-- ===== src/Clickhouse/Settings/Timeouts.antt =====
-- The bounds that every client has (clickhouse/options.go).
use dev_health_go.Base.{◌*◌, ◌≤◌, ◌≡◌, refl, true, arith}
use dev_health_go.Clickhouse.Settings.{
  second, Options, Configured, is_positive, max_execution_time, max_duration, execution_duration,
  query_timeout_for_options, apply_options,
}

-- The time that the server may run a query is not 0, and the client waits no longer: its own limit is a
-- positive int64 of nanoseconds, at most that time.
pub query_timeout-bounds :
    (o : Options)
    → (1 ≤ query_timeout_for_options o)
      × (query_timeout_for_options o ≤ max_duration)
      × (1 ≤ max_execution_time o)
      × (query_timeout_for_options o ≤ max_execution_time o * second)
unfolding query_timeout_for_options execution_duration max_execution_time
query_timeout-bounds o = (ground arith, ground arith, ground arith, ground arith)

-- Every duration and every connection bound that the driver is given is positive, whatever the options
-- and the driver's own options say, a query always has a time limit, and compression is on.
pub apply_options-positive :
    (c : Configured) (o : Options)
    → (is_positive (apply_options c o).dial_timeout ≡ true)
      × (is_positive (apply_options c o).read_timeout ≡ true)
      × (is_positive (apply_options c o).max_open_conns ≡ true)
      × (is_positive (apply_options c o).max_idle_conns ≡ true)
      × (is_positive (apply_options c o).conn_max_lifetime ≡ true)
      × (1 ≤ (apply_options c o).max_execution_time)
      × ((apply_options c o).has_compression ≡ true)
unfolding apply_options max_execution_time
apply_options-positive c o =
    (ground arith, ground arith, ground arith, ground arith, ground arith, ground arith, refl)

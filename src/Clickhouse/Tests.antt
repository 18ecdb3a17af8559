-- ===== src/Clickhouse/Tests.antt =====
-- Bindings and options at concrete values.
use dev_health_go.Base.{
  List, ℕ, Str, codes, ◌*◌, ◌≤◌, ◌≡◌, refl, Bool, false, none, some, [], ◌∷◌, eq_str,
}
use dev_health_go.Pep.Json.{contains}
use dev_health_go.Clickhouse.Bindings.{
  string_array, encoded, quoted_string, has_backslash, double_quotes, Binding, text, strings,
  translate_bindings, translate_from, translate_one, parameter,
}
use dev_health_go.Clickhouse.Bindings.Quoted.{read_array, read_array-string_array}
use dev_health_go.Clickhouse.Bindings.Names.{AreParameters, translate_bindings-AreParameters}
use dev_health_go.Clickhouse.Settings.{
  Options, Configured, pos, negsuc, second, max_duration, max_execution_time,
  query_timeout_for_options,
}
use dev_health_go.Clickhouse.Settings.Timeouts.{query_timeout-bounds}

abbrev options : Options
options = record {
  dial_timeout = pos 0;
  read_timeout = negsuc 4;
  max_open_conns = pos 3;
  max_idle_conns = pos 0;
  conn_max_lifetime = pos 0;
  query_timeout = pos 250;
  max_execution_time = 0;
  max_result_rows = some 0;
  max_bytes_to_read = none;
}

abbrev configured : Configured
configured = record {
  dial_timeout = pos 9;
  read_timeout = pos 0;
  max_open_conns = pos 0;
  max_idle_conns = pos 0;
  conn_max_lifetime = pos 0;
  has_compression = false;
  max_execution_time = 0;
  max_result_rows = 0;
  max_bytes_to_read = 0;
}

abbrev decimal : ℕ → Str
decimal n = codes "1"

abbrev signed : Bool → ℕ → Str
signed negative n = codes "-1"

read_array_example : read_array 3 (codes "['it''s','b']") ≡ some (codes "it's" ∷ codes "b" ∷ [])
unfolding string_array encoded quoted_string has_backslash double_quotes
read_array_example =
    read_array-string_array (codes "it's" ∷ codes "b" ∷ []) (codes "['it''s','b']") refl

abbrev bindings : List Binding
bindings =
    record { name = codes "org"; value = text (codes "o") }
    ∷ record { name = codes "keys"; value = strings (codes "a" ∷ []) }
    ∷ []

translate_bindings_example :
    AreParameters decimal signed decimal 2
      ((codes "keys", codes "['a']") ∷ (codes "org", codes "o") ∷ [])
unfolding translate_bindings translate_from translate_one parameter string_array encoded
    quoted_string has_backslash double_quotes contains eq_str
translate_bindings_example =
    translate_bindings-AreParameters decimal signed decimal bindings
      ((codes "keys", codes "['a']") ∷ (codes "org", codes "o") ∷ []) refl

query_timeout_example :
    (1 ≤ query_timeout_for_options options)
    × (query_timeout_for_options options ≤ max_duration)
    × (1 ≤ max_execution_time options)
    × (query_timeout_for_options options ≤ max_execution_time options * second)
query_timeout_example = query_timeout-bounds options

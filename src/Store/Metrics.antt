-- ===== src/Store/Metrics.antt =====
-- Metrics and gateway agents in manager/config_store.py: `set_metric`, `increment_metric`,
-- `list_metrics`, `heartbeat_agent`, `get_agent`, `list_agents` and `_prom_escape`.
pub mod Keeps
pub mod Counts
use Prim.Native.Nat.{Ordering}
use Prim.Native.Char.{Char, code}
use Prim.Native.String.{compare}
use pq_migration_gateway.Prelude.{
  ℕ, ◌+◌, ◌*◌, ◌-◌, String, Bool, true, false, ◌&&◌, ◌||◌, List, [], ◌∷◌, map, Option, none, some,
  ◌==◌, append, if◌then◌else◌, max, eqb, ltb,
}
use pq_migration_gateway.Prelude.Int.{ℤ, pos, ◌+ℤ◌, leb_ℤ}
use pq_migration_gateway.Result.{
  Error, Result, ok, err, value_error, key_error, ◌>>=◌, ◌>>◌, require,
}
use pq_migration_gateway.Json.{Json}
use pq_migration_gateway.Store.Rows.{find_row, upsert_row, from_row}
use pq_migration_gateway.Store.Tables.{MetricType, counter, gauge, MetricRow, AgentRow, Store}
use pq_migration_gateway.Store.Releases.{or_raise}

abbrev pub Labels : Type 0
Labels = List (String × String)

-- Equality of label sets; the code compares their JSON texts, written with sorted keys.
abbrev pub same_labels : Labels → Labels → Bool
same_labels [] [] = true
same_labels [] (_ ∷ _) = false
same_labels (_ ∷ _) [] = false
same_labels ((k, v) ∷ ls) ((j, w) ∷ ms) = k == j && v == w && same_labels ls ms

-- The primary key of `runtime_metrics`.
abbrev pub is_metric : String → Labels → MetricRow → Bool
is_metric name labels row = row.metric_name == name && same_labels row.labels labels

-- `metric_type in {"counter", "gauge"}`
unfoldable pub metric_type_of : String → Option MetricType
metric_type_of t =
    if t == "counter" then some counter else if t == "gauge" then some gauge else none

abbrev pub metric_row : String → Labels → MetricType → String → ℤ → ℕ → MetricRow
metric_row name labels type help value now = record {
  metric_name = name;
  labels = labels;
  metric_type = type;
  help_text = help;
  metric_value = value;
  updated_at = now;
}

-- `set_metric`, with a type that is known
unfoldable pub set_known_metric : String → ℤ → Labels → MetricType → String → ℕ → Store → Store
set_known_metric name value labels type help now st =
    let row = metric_row name labels type help value now in
    record st {
      runtime_metrics = upsert_row (is_metric name labels) (λ _. row) row st.runtime_metrics;
    }

unfoldable pub set_metric : String → ℤ → Labels → String → String → ℕ → Store → Result Store
unfolding set_known_metric
set_metric name value labels type help now st = do
  t ← or_raise (value_error "metric_type must be counter or gauge") (metric_type_of type)
  ok (set_known_metric name value labels t help now st)

-- `ON CONFLICT DO UPDATE SET metric_value = metric_value + excluded.metric_value`
abbrev pub add_amount : ℤ → String → ℕ → MetricRow → MetricRow
add_amount amount help now row = record row {
  metric_value = row.metric_value +ℤ amount;
  help_text = help;
  updated_at = now;
}

unfoldable pub increment_metric : String → ℤ → Labels → String → ℕ → Store → Store
increment_metric name amount labels help now st = record st {
  runtime_metrics =
      upsert_row (is_metric name labels) (add_amount amount help now)
        (metric_row name labels counter help amount now) st.runtime_metrics;
}

-- The value of a metric, if there is one.
unfoldable pub metric_value : String → Labels → Store → Option ℤ
metric_value name labels st = elim (find_row (is_metric name labels) st.runtime_metrics) [
  | none ↦ none
  | some row ↦ some row.metric_value
]

-- `_prom_escape`: backslash, line break and quote, in the order of the three replacements
escape_char : Char → String
escape_char c =
    if eqb (code c) 92
    then "\\\\"
    else if eqb (code c) 10
    then "\\n"
    else if eqb (code c) 34
    then "\\\""
    else String.◌∷◌ c ""

unfoldable pub prom_escape : String → String
unfolding escape_char
prom_escape String.[] = ""
prom_escape (String.◌∷◌ c s) = append (escape_char c) (prom_escape s)

pub record Heartbeat : Type 0 where
  pub current_version : Option ℕ
  pub desired_version : Option ℕ
  pub status : String
  pub health : String
  pub reload_result : Option String
  pub active_connections : Option ℕ
  pub fallback_rate : Option ℤ
  pub error : Option Error
  pub metadata : Json

abbrev pub has_agent : String → AgentRow → Bool
has_agent id row = row.agent_id == id

unfoldable pub find_agent : String → Store → Option AgentRow
find_agent id st = find_row (has_agent id) st.gateway_agents

-- `get_agent`
unfoldable pub get_agent : String → Store → Result AgentRow
get_agent id st = or_raise (key_error id) (find_agent id st)

abbrev pub agent_row : String → Heartbeat → ℕ → Option AgentRow → AgentRow
agent_row id h now existing = record {
  agent_id = id;
  current_version = h.current_version;
  desired_version = h.desired_version;
  status = h.status;
  health = h.health;
  reload_result = h.reload_result;
  active_connections = h.active_connections;
  fallback_rate = h.fallback_rate;
  error = h.error;
  metadata = h.metadata;
  first_seen = from_row now (λ r. r.first_seen) existing;
  last_seen = now;
}

-- REAL columns are in millionths.
abbrev pub real : ℕ → ℤ
real n = pos (n * 1000000)

abbrev or_zero : Option ℕ → ℕ
or_zero none = 0
or_zero (some n) = n

agent_gauge : String → String → ℤ → String → ℕ → Store → Store
agent_gauge id name value help now =
    set_known_metric name value (("agent_id", id) ∷ []) gauge help now

optional_gauge : String → String → Option ℤ → String → ℕ → Store → Store
unfolding agent_gauge
optional_gauge id name none help now st = st
optional_gauge id name (some v) help now st = agent_gauge id name v help now st

abbrev real_option : Option ℕ → Option ℤ
real_option none = none
real_option (some n) = some (real n)

-- The gauges that a heartbeat sets.
heartbeat_gauges : String → Heartbeat → ℕ → Store → Store
unfolding agent_gauge optional_gauge
heartbeat_gauges id h now st =
    let st₁ =
      agent_gauge id "gateway_agent_heartbeat_timestamp_seconds" (real now)
        "Unix timestamp of the latest gateway-agent heartbeat." now st in
    let st₂ =
      agent_gauge id "gateway_agent_health" (if h.health == "healthy" then real 1 else real 0)
        "Whether the gateway agent reports healthy state." now st₁ in
    let st₃ =
      agent_gauge id "gateway_agent_current_config_version" (real (or_zero h.current_version))
        "Configuration version currently active on the gateway agent." now st₂ in
    let st₄ =
      agent_gauge id "gateway_agent_desired_config_version" (real (or_zero h.desired_version))
        "Configuration version desired by the gateway agent." now st₃ in
    let st₅ =
      optional_gauge id "gateway_active_connections" (real_option h.active_connections)
        "Active connections reported by the gateway agent." now st₄ in
    optional_gauge id "gateway_classical_fallback_ratio" h.fallback_rate
      "Classical fallback ratio reported by the gateway agent." now st₅

-- `fallback_rate is not None and not 0 <= fallback_rate <= 1`
abbrev pub is_ratio : Option ℤ → Bool
is_ratio none = true
is_ratio (some r) = leb_ℤ (pos 0) r && leb_ℤ r (real 1)

-- What `heartbeat_agent` writes once the ratio is accepted; none of its transactions can raise then.
unfoldable pub write_heartbeat : String → Heartbeat → ℕ → Store → Store
unfolding heartbeat_gauges find_agent
write_heartbeat id h now st =
    let row = agent_row id h now (find_agent id st) in
    heartbeat_gauges id h now
      (record st { gateway_agents = upsert_row (has_agent id) (λ _. row) row st.gateway_agents })

unfoldable pub heartbeat_agent : String → Heartbeat → ℕ → Store → Result Store
unfolding write_heartbeat
heartbeat_agent id h now st = do
  require (is_ratio h.fallback_rate) (value_error "fallback_rate must be between 0 and 1")
  ok (write_heartbeat id h now st)

pub record AgentView : Type 0 where
  pub agent : AgentRow
  pub stale : Bool

abbrev not_after : String → String → Bool
not_after a b = elim (compare a b) [ Ordering.gt ↦ false | _ ↦ true ]

insert_agent : AgentRow → List AgentRow → List AgentRow
insert_agent a [] = a ∷ []
insert_agent a (x ∷ xs) =
    if not_after a.agent_id x.agent_id then a ∷ x ∷ xs else x ∷ insert_agent a xs

sort_agents : List AgentRow → List AgentRow
unfolding insert_agent
sort_agents [] = []
sort_agents (a ∷ as_) = insert_agent a (sort_agents as_)

-- `list_agents`: stale if `last_seen_epoch < unix_now() - max(1.0, stale_after)`
unfoldable pub list_agents : ℕ → ℕ → Store → List AgentView
unfolding sort_agents
list_agents stale_after now st =
    map (λ a. record { agent = a; stale = ltb (a.last_seen + max 1 stale_after) now })
      (sort_agents st.gateway_agents)

-- ===== src/Store/Metrics/Keeps.antt =====
-- What metrics and heartbeats leave alone (manager/config_store.py).
use pq_migration_gateway.Prelude.{◌≡◌, refl, ℕ, String, Option, none, some}
use pq_migration_gateway.Prelude.Int.{ℤ}
use pq_migration_gateway.Store.Tables.{Store}
use pq_migration_gateway.Store.Metrics.{
  Heartbeat, set_known_metric, increment_metric, agent_gauge, optional_gauge, heartbeat_gauges,
  write_heartbeat, Labels,
}

optional_gauge-config_versions :
    (id name help : String) (value : Option ℤ) (now : ℕ) (st : Store)
    → (optional_gauge id name value help now st).config_versions ≡ st.config_versions
unfolding optional_gauge agent_gauge set_known_metric
optional_gauge-config_versions id name help none now st = refl
optional_gauge-config_versions id name help (some v) now st = refl

pub increment_metric-config_versions :
    (name : String) (amount : ℤ) (labels : Labels) (help : String) (now : ℕ) (st : Store)
    → (increment_metric name amount labels help now st).config_versions ≡ st.config_versions
unfolding increment_metric
increment_metric-config_versions name amount labels help now st = refl

pub write_heartbeat-config_versions :
    (id : String) (h : Heartbeat) (now : ℕ) (st : Store)
    → (write_heartbeat id h now st).config_versions ≡ st.config_versions
unfolding write_heartbeat heartbeat_gauges agent_gauge set_known_metric
write_heartbeat-config_versions id h now st = simp (optional_gauge-config_versions)

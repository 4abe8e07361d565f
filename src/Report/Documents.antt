-- ===== src/Report/Documents.antt =====
-- A normalised runtime report as the JSON value that manager/runtime_ingest.py returns.
use pq_migration_gateway.Prelude.{ℕ, String, List, [], ◌∷◌, map}
use pq_migration_gateway.Prelude.Int.{pos}
use pq_migration_gateway.Json.{Json, Fields, num, str, arr, obj, array, dict}
use pq_migration_gateway.Report.Types.{
  RuntimeAgent, Container, RuntimeProcess, Observation, Summary, Report,
}

abbrev pub texts : List String → Json
texts ss = arr (array (map (λ s. str s) ss))

abbrev pub count : ℕ → Json
count n = num (pos n)

unfoldable pub agent_json : RuntimeAgent → Json
agent_json a = obj (
    dict (
      ("id", str a.id)
      ∷ ("hostname", str a.hostname)
      ∷ ("version", str a.version)
      ∷ ("boot_id", str a.boot_id)
      ∷ ("mode", str a.mode)
      ∷ ("capabilities", texts a.capabilities)
      ∷ ("metadata", a.metadata)
      ∷ []))

unfoldable pub container_json : Container → Json
container_json c = obj (
    dict (
      ("id", str c.id)
      ∷ ("runtime", str c.runtime)
      ∷ ("pod_uid", str c.pod_uid)
      ∷ ("cgroup", str c.cgroup)
      ∷ []))

unfoldable pub process_json : RuntimeProcess → Json
unfolding container_json
process_json p = obj (
    dict (
      ("process_instance_id", str p.process_instance_id)
      ∷ ("workload_asset_id", str p.workload_asset_id)
      ∷ ("pid", num p.pid)
      ∷ ("start_time_ticks", num p.start_time_ticks)
      ∷ ("executable", str p.executable)
      ∷ ("command", str p.command)
      ∷ ("uid", num p.uid)
      ∷ ("mapped_crypto_libraries", texts p.mapped_crypto_libraries)
      ∷ ("container", container_json p.container)
      ∷ ("namespaces", p.namespaces)
      ∷ ("metadata", p.metadata)
      ∷ []))

unfoldable pub observation_json : Observation → Json
observation_json o = obj (
    dict (
      ("observation_key", str o.observation_key)
      ∷ ("process_instance_id", str o.process_instance_id)
      ∷ ("workload_asset_id", str o.workload_asset_id)
      ∷ ("pid", num o.pid)
      ∷ ("start_time_ticks", num o.start_time_ticks)
      ∷ ("evidence_type", str o.evidence_type)
      ∷ ("method", str o.method)
      ∷ ("library", str o.library)
      ∷ ("algorithm", str o.algorithm)
      ∷ ("risk", str o.risk)
      ∷ ("pq_status", str o.pq_status)
      ∷ ("confidence", str o.confidence)
      ∷ ("source", str o.source)
      ∷ ("observed_at", str o.observed_at)
      ∷ ("count", num o.count)
      ∷ ("metadata", o.metadata)
      ∷ []))

unfoldable pub summary_fields : Summary → Fields
summary_fields s = dict (
    ("processes", count s.processes)
    ∷ ("containers", count s.containers)
    ∷ ("mapped_library_observations", count s.mapped_library_observations)
    ∷ ("runtime_call_observations", count s.runtime_call_observations)
    ∷ [])

unfoldable pub report_json : Report → Json
unfolding agent_json process_json observation_json summary_fields
report_json r = obj (
    dict (
      ("schema_version", count 1)
      ∷ ("batch_id", str r.batch_id)
      ∷ ("collected_at", str r.collected_at)
      ∷ ("agent", agent_json r.agent)
      ∷ ("processes", arr (array (map process_json r.processes)))
      ∷ ("observations", arr (array (map observation_json r.observations)))
      ∷ ("summary", obj (summary_fields r.summary))
      ∷ []))

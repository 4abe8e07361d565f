-- ===== src/Report/Inventory.antt =====
-- `runtime_inventory` of manager/runtime_ingest.py: a normalised runtime report in the schema of the
-- asset inventory. The `dict` of artifacts is a list in the order of insertion.
use pq_migration_gateway.Prelude.{
  String, Bool, true, List, [], ◌∷◌, ◌++◌, map, ◌==◌, append, if◌then◌else◌, take, length,
}
use pq_migration_gateway.Result.{Result, ok, err, type_error, ◌>>=◌}
use pq_migration_gateway.Json.{Json, Items, Fields, bool, num, str, arr, obj, array, dict, update}
use pq_migration_gateway.Store.Rows.{find_row, upsert_row, from_row}
use pq_migration_gateway.Store.Inventory.{sorted_set}
use pq_migration_gateway.Report.Types.{Container, RuntimeProcess, Observation, Report}
use pq_migration_gateway.Report.Texts.{int_text}
use pq_migration_gateway.Report.Documents.{
  texts, count, container_json, process_json, summary_fields,
}

pub record Artifact : Type 0 where
  pub artifact_id : String
  pub path : String
  pub container : Container
  pub dependencies : List String
  pub process_instances : List Json

abbrev pub has_artifact : String → Artifact → Bool
has_artifact id a = a.artifact_id == id

abbrev pub new_artifact : RuntimeProcess → Artifact
new_artifact p = record {
  artifact_id = p.workload_asset_id;
  path = p.executable;
  container = p.container;
  dependencies = [];
  process_instances = [];
}

abbrev pub instance_json : RuntimeProcess → Json
instance_json p = obj (
    dict (
      ("process_instance_id", str p.process_instance_id)
      ∷ ("pid", num p.pid)
      ∷ ("start_time_ticks", num p.start_time_ticks)
      ∷ ("uid", num p.uid)
      ∷ []))

-- What the loop's body does to the artifact of a process.
abbrev pub extend_artifact : RuntimeProcess → Artifact → Artifact
extend_artifact p a = record a {
  dependencies = take 500 (sorted_set (a.dependencies ++ p.mapped_crypto_libraries));
  process_instances = a.process_instances ++ instance_json p ∷ [];
}

-- `for process in report["processes"]`
unfoldable pub artifacts_from : List RuntimeProcess → List Artifact → List Artifact
unfolding sorted_set
artifacts_from [] artifacts = artifacts
artifacts_from (p ∷ ps) artifacts = artifacts_from ps (
    upsert_row (has_artifact p.workload_asset_id) (extend_artifact p)
      (extend_artifact p (new_artifact p)) artifacts)

unfoldable pub artifact_json : Report → Artifact → Json
unfolding container_json
artifact_json r a = obj (
    dict (
      ("artifact_id", str a.artifact_id)
      ∷ ("path", str a.path)
      ∷ (
        "artifact_type",
        str (if a.container.id == "" then "runtime_process" else "container_workload"),
      )
      ∷ ("file_format", str "running-process")
      ∷ ("sha256", str "")
      ∷ ("size", count 0)
      ∷ ("executable", bool true)
      ∷ ("languages", arr Items.nil)
      ∷ ("dependencies", texts a.dependencies)
      ∷ ("imported_symbols", arr Items.nil)
      ∷ ("demangled_symbols", arr Items.nil)
      ∷ ("confidence", str "HIGH")
      ∷ (
        "metadata",
        obj (
            dict (
              ("agent_id", str r.agent.id)
              ∷ ("hostname", str r.agent.hostname)
              ∷ ("container", container_json a.container)
              ∷ ("process_instances", arr (array a.process_instances))
              ∷ ("runtime_observed", bool true)
              ∷ [])),
      )
      ∷ []))

abbrev executable_of : String → List RuntimeProcess → String
executable_of id processes =
    from_row "" (λ (p : RuntimeProcess). p.executable)
      (find_row (λ (p : RuntimeProcess). p.process_instance_id == id) processes)

-- `{…, **observation["metadata"]}`; unpacking a value that is no object raises a `TypeError`.
abbrev pub unpacked : Fields → Json → Result Fields
unpacked own (obj fs) = ok (update own fs)
unpacked own _ = err (type_error "not a mapping")

unfoldable pub evidence_metadata : Report → Observation → Fields
evidence_metadata r o = dict (
    ("agent_id", str r.agent.id)
    ∷ ("batch_id", str r.batch_id)
    ∷ ("process_instance_id", str o.process_instance_id)
    ∷ ("observed_at", str o.observed_at)
    ∷ ("count", num o.count)
    ∷ ("observed_call", bool (o.evidence_type == "runtime_crypto_api"))
    ∷ [])

unfoldable pub evidence_json : Report → Observation → Fields → Json
unfolding int_text
evidence_json r o metadata = obj (
    dict (
      ("evidence_id", str o.observation_key)
      ∷ ("artifact_id", str o.workload_asset_id)
      ∷ (
        "path",
        str (
            if o.library == "" then executable_of o.process_instance_id r.processes else o.library),
      )
      ∷ ("line", count 0)
      ∷ ("evidence_type", str o.evidence_type)
      ∷ ("algorithm", str o.algorithm)
      ∷ ("risk", str o.risk)
      ∷ ("pq_status", str o.pq_status)
      ∷ ("excerpt", str (append "pid=" (append (int_text o.pid) (append " observed " o.method))))
      ∷ ("language", str "runtime")
      ∷ ("method", str o.method)
      ∷ ("library", str o.library)
      ∷ ("confidence", str o.confidence)
      ∷ ("artifact_type", str "runtime_process")
      ∷ ("source", str o.source)
      ∷ ("metadata", obj metadata)
      ∷ []))

-- `for observation in report["observations"]`
unfoldable pub runtime_evidence : Report → List Observation → Result (List Json)
unfolding evidence_json evidence_metadata
runtime_evidence r [] = ok []
runtime_evidence r (o ∷ os) = do
  metadata ← unpacked (evidence_metadata r o) o.metadata
  rest ← runtime_evidence r os
  ok (evidence_json r o metadata ∷ rest)

unfoldable pub runtime_inventory : Report → Result Fields
unfolding runtime_evidence artifacts_from artifact_json summary_fields process_json
runtime_inventory r = do
  evidence ← runtime_evidence r r.observations
  let artifacts = artifacts_from r.processes []
  let summary = update (summary_fields r.summary) (
      dict (
        ("runtime_agent_id", str r.agent.id)
        ∷ ("runtime_batch_id", str r.batch_id)
        ∷ ("crypto_relevant_artifacts", count (length artifacts))
        ∷ ("runtime_crypto_processes", count (length r.processes))
        ∷ ("runtime_crypto_api_observations", count r.summary.runtime_call_observations)
        ∷ []))
  ok (
      dict (
        ("schema_version", count 4)
        ∷ ("scanner_version", str r.agent.version)
        ∷ ("generated_at", str r.collected_at)
        ∷ ("roots", arr Items.nil)
        ∷ ("summary", obj summary)
        ∷ ("assets", arr Items.nil)
        ∷ ("artifacts", arr (array (map (artifact_json r) artifacts)))
        ∷ ("evidence", arr (array evidence))
        ∷ ("findings", arr (array evidence))
        ∷ ("runtime_processes", arr (array (map process_json r.processes)))
        ∷ []))

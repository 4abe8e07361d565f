-- ===== src/Report/Normalize.antt =====
-- `normalize_runtime_report` of manager/runtime_ingest.py.
use pq_migration_gateway.Prelude.{
  String, Bool, not, ◌&&◌, List, [], map, ◌==◌, if◌then◌else◌, leb, length, keep,
}
use pq_migration_gateway.Prelude.Int.{pos}
use pq_migration_gateway.Result.{Result, ok, err, value_error, ◌>>=◌, ◌>>◌, require}
use pq_migration_gateway.Json.{Json, Items, Fields, num, arr, obj, get, get_or}
use pq_migration_gateway.Config.Fields.{safe_name}
use pq_migration_gateway.Store.Rows.{count_rows}
use pq_migration_gateway.Store.Inventory.{sorted_set}
use pq_migration_gateway.Report.Types.{RuntimeAgent, RuntimeProcess, Observation, Summary, Report}
use pq_migration_gateway.Report.Texts.{text_length}
use pq_migration_gateway.Report.Processes.{
  Host, int_of, limited, runtime_agent, runtime_processes, bounded_array,
}
use pq_migration_gateway.Report.Observations.{same_ℤ, runtime_observations}
use pq_migration_gateway.Report.Documents.{report_json}

-- `SAFE_ID`, `^[A-Za-z0-9._-]{1,128}$`
unfoldable pub safe_id : String → Bool
unfolding safe_name text_length
safe_id s = safe_name s && leb (text_length s) 128

abbrev pub as_fields : String → Json → Result Fields
as_fields field (obj fs) = ok fs
as_fields field _ = err (value_error field)

abbrev pub has_evidence : String → Observation → Bool
has_evidence type o = o.evidence_type == type

-- The distinct container ids that are not empty.
abbrev container_ids : List RuntimeProcess → List String
container_ids processes =
    keep (λ id. not (id == "")) (map (λ (p : RuntimeProcess). p.container.id) processes)

unfoldable pub report_summary : List RuntimeProcess → List Observation → Summary
unfolding sorted_set count_rows
report_summary processes observations = record {
  processes = length processes;
  containers = length (sorted_set (container_ids processes));
  mapped_library_observations = count_rows (has_evidence "runtime_mapped_library") observations;
  runtime_call_observations = count_rows (has_evidence "runtime_crypto_api") observations;
}

abbrev pub report_of :
    String → String → RuntimeAgent → List RuntimeProcess → List Observation → Report
report_of batch_id collected_at agent processes observations = record {
  batch_id = batch_id;
  collected_at = collected_at;
  agent = agent;
  processes = processes;
  observations = observations;
  summary = report_summary processes observations;
}

module _ (host : Host) where
  -- `_text(payload.get("collected_at"), 64) or _now()`
  abbrev pub collected : Fields → String
  collected payload =
      let given = limited host 64 (get "collected_at" payload) in
      if given == "" then host.now else given

  -- The report behind the checks of its header.
  unfoldable pub report_body : String → String → Fields → Fields → Result Report
  unfolding runtime_agent runtime_processes runtime_observations bounded_array report_summary
      report_json
  report_body agent_id batch_id raw_agent payload = do
    agent ← runtime_agent host agent_id raw_agent
    raw_processes ← bounded_array "processes" 5000 (get_or "processes" (arr Items.nil) payload)
    processes ← runtime_processes host agent raw_processes
    raw ← bounded_array "observations" 20000 (get_or "observations" (arr Items.nil) payload)
    observations ← runtime_observations host agent (collected payload) processes [] raw
    let report = report_of batch_id (collected payload) agent processes observations
    require (leb (host.dumped_size (report_json report)) 2097152) (value_error "2 MiB")
    ok report

  unfoldable pub report_of_fields : Fields → Result Report
  unfolding report_body int_of safe_id
  report_of_fields payload = do
    schema ← int_of host (get_or "schema_version" (num (pos 1)) payload)
    require (same_ℤ schema (pos 1)) (value_error "schema_version")
    raw_agent ← as_fields "agent" (get "agent" payload)
    require (safe_id (limited host 128 (get "id" raw_agent))) (value_error "agent.id")
    require (safe_id (limited host 128 (get "batch_id" payload))) (value_error "batch_id")
    report_body (limited host 128 (get "id" raw_agent)) (limited host 128 (get "batch_id" payload))
        raw_agent payload

  -- `normalize_runtime_report`
  unfoldable pub normalize_runtime_report : Json → Result Report
  unfolding report_of_fields
  normalize_runtime_report payload = do fields ← as_fields "report" payload; report_of_fields fields

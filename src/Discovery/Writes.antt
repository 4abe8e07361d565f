-- ===== src/Discovery/Writes.antt =====
-- The transactions of `ingest_runtime_report` in manager/config_store.py, and `get_runtime_batch`.
-- The foreign keys to the agent, the scan and the batch hold by the rows that are written before.
use pq_migration_gateway.Prelude.{
  ℕ, String, Bool, true, false, ◌&&◌, ◌||◌, List, [], ◌∷◌, Option, none, some, ◌==◌, append,
  if◌then◌else◌, is_some,
}
use pq_migration_gateway.Prelude.Int.{ℤ, pos, negsuc, ◌+ℤ◌, leb_ℤ}
use pq_migration_gateway.Result.{
  Error, Result, ok, value_error, key_error, integrity_error, overflow_error, ◌>>=◌, ◌>>◌, require,
}
use pq_migration_gateway.Json.{Json, str, obj, dict, update}
use pq_migration_gateway.Store.Rows.{find_row, update_rows, upsert_row}
use pq_migration_gateway.Store.Tables.{
  reporting, healthy, degraded, DiscoveryAgent, BatchStatus, received, ingested, failed, Batch,
  ProcessInstance, ObservationRow, ScanJob, Store, gauge, name_id,
}
use pq_migration_gateway.Store.Releases.{or_raise, audit_conn}
use pq_migration_gateway.Store.Scans.{has_scan, new_scan, find_asset}
use pq_migration_gateway.Store.Metrics.{real, set_known_metric, increment_metric}
use pq_migration_gateway.Report.Types.{RuntimeAgent, RuntimeProcess, Observation, Report}
use pq_migration_gateway.Report.Texts.{cut}
use pq_migration_gateway.Report.Documents.{summary_fields}
use pq_migration_gateway.Report.Processes.{Host}

abbrev pub has_batch : String → Batch → Bool
has_batch id b = b.batch_id == id

unfoldable pub find_batch : String → Store → Option Batch
find_batch id st = find_row (has_batch id) st.runtime_discovery_batches

-- `get_runtime_batch`
unfoldable pub get_runtime_batch : String → Store → Result Batch
unfolding find_batch
get_runtime_batch id st = or_raise (key_error id) (find_batch id st)

abbrev pub has_discovery : String → DiscoveryAgent → Bool
has_discovery id a = a.agent_id == id

unfoldable pub find_discovery : String → Store → Option DiscoveryAgent
find_discovery id st = find_row (has_discovery id) st.runtime_discovery_agents

abbrev pub has_instance : String → ProcessInstance → Bool
has_instance id p = p.process.process_instance_id == id

abbrev pub has_key : String → ObservationRow → Bool
has_key key o = o.observation_key == key

abbrev pub is_ingested : BatchStatus → Bool
is_ingested received = false
is_ingested ingested = true
is_ingested failed = false

-- The checks on a batch that is there: whether it is done already.
unfoldable pub check_batch : Report → Option Batch → Result Bool
check_batch r none = ok false
check_batch r (some b) = do
  require (b.agent_id == r.agent.id)
      (value_error "runtime batch_id is already owned by another agent")
  ok (is_ingested b.status)

-- `INSERT OR IGNORE INTO scan_jobs`
abbrev pub add_scan : ScanJob → List ScanJob → List ScanJob
add_scan job jobs = if is_some (find_row (has_scan job.scan_id) jobs) then jobs else job ∷ jobs

abbrev scan_request : Report → Json
scan_request r = obj (dict (("agent_id", str r.agent.id) ∷ ("batch_id", str r.batch_id) ∷ []))

-- A known process keeps its agent, its numbers and the time when it was first seen.
abbrev pub change_instance : RuntimeProcess → ℕ → ProcessInstance → ProcessInstance
change_instance p now old = record old {
  process = record p {
    process_instance_id = old.process.process_instance_id;
    pid = old.process.pid;
    start_time_ticks = old.process.start_time_ticks;
  };
  last_seen = now;
}

-- What sqlite3 can bind as an INTEGER; it raises an OverflowError on any other `int`.
abbrev pub fits_integer : ℤ → Bool
fits_integer n = leb_ℤ (negsuc 9223372036854775807) n && leb_ℤ n (pos 9223372036854775807)

abbrev pub can_bind : RuntimeProcess → Bool
can_bind p = fits_integer p.pid && fits_integer p.start_time_ticks && fits_integer p.uid

unfoldable pub write_processes :
    String → ℕ → List RuntimeProcess → List ProcessInstance → Result (List ProcessInstance)
write_processes agent now [] table = ok table
write_processes agent now (p ∷ ps) table = do
  require (can_bind p) (overflow_error "runtime_process_instances")
  write_processes agent now ps (
      upsert_row (has_instance p.process_instance_id) (change_instance p now)
        (record { agent_id = agent; process = p; first_seen = now; last_seen = now }) table)

abbrev new_observation : String → String → ℕ → Observation → ObservationRow
new_observation batch agent now o = record {
  observation_key = o.observation_key;
  latest_batch_id = batch;
  agent_id = agent;
  first = o;
  observation_count = o.count;
  first_observed = o.observed_at;
  last_observed = o.observed_at;
  last_observed_epoch = now;
  payload = o;
}

abbrev add_to_observation : String → ℕ → Observation → ObservationRow → ObservationRow
add_to_observation batch now o old = record old {
  latest_batch_id = batch;
  observation_count = old.observation_count +ℤ o.count;
  last_observed = o.observed_at;
  last_observed_epoch = now;
  payload = o;
}

-- The foreign keys of a new row of `runtime_observations`.
abbrev pub has_parents : Observation → Store → Bool
has_parents o st =
    is_some (find_row (has_instance o.process_instance_id) st.runtime_process_instances)
    && is_some (find_asset o.workload_asset_id st)

unfoldable pub write_observations : String → String → ℕ → List Observation → Store → Result Store
unfolding find_asset
write_observations batch agent now [] st = ok st
write_observations batch agent now (o ∷ os) st = do
  require
      (is_some (find_row (has_key o.observation_key) st.runtime_observations) || has_parents o st)
      (integrity_error "runtime_observations")
  write_observations batch agent now os (record st {
    runtime_observations =
        upsert_row (has_key o.observation_key) (add_to_observation batch now o)
          (new_observation batch agent now o) st.runtime_observations;
  })

unfoldable pub finish_batch : Report → ℕ → Store → Store
finish_batch r now st = record st {
  runtime_discovery_batches =
      update_rows (has_batch r.batch_id)
        (λ b. record b {
          status = ingested;
          completed_at = some now;
          summary = r.summary;
          error = none;
        })
        st.runtime_discovery_batches;
  runtime_discovery_agents =
      update_rows (has_discovery r.agent.id)
        (λ a. record a { status = healthy; last_error = none; last_seen = now })
        st.runtime_discovery_agents;
}

unfoldable pub fail_batch : Report → Error → ℕ → Store → Store
fail_batch r e now st = record st {
  runtime_discovery_batches =
      update_rows (has_batch r.batch_id)
        (λ b. record b { status = failed; completed_at = some now; error = some e })
        st.runtime_discovery_batches;
  runtime_discovery_agents =
      update_rows (has_discovery r.agent.id)
        (λ a. record a { status = degraded; last_error = some e }) st.runtime_discovery_agents;
}

-- The metrics that a report sets.
unfoldable pub report_metrics : Report → ℕ → Store → Store
report_metrics r now st =
    let labels = ("agent_id", r.agent.id) ∷ [] in
    let st₁ =
      set_known_metric "runtime_discovery_agent_last_report_timestamp_seconds" (real now) labels
        gauge "Unix timestamp of the latest Runtime Agent report." now st in
    let st₂ =
      set_known_metric "runtime_discovery_processes" (real r.summary.processes) labels gauge
        "Crypto-relevant running processes observed by a Runtime Agent." now st₁ in
    increment_metric "runtime_crypto_call_observations_total"
      (real r.summary.runtime_call_observations) labels
      "Cumulative crypto API call observations submitted by Runtime Agents." now st₂

abbrev pub discovery_row : RuntimeAgent → ℕ → DiscoveryAgent
discovery_row a now = record {
  agent_id = a.id;
  hostname = a.hostname;
  version = a.version;
  boot_id = a.boot_id;
  mode = a.mode;
  status = reporting;
  capabilities = a.capabilities;
  metadata = a.metadata;
  first_seen = now;
  last_seen = now;
  last_error = none;
}

module _ (host : Host) where
  unfoldable pub runtime_scan_id : Report → String
  unfolding cut
  runtime_scan_id r =
      append "runtime-scan-" (cut 24 (host.sha256 (append r.agent.id (append "\0" r.batch_id))))

  abbrev pub new_batch : Report → ℕ → Batch
  new_batch r now = record {
    batch_id = r.batch_id;
    agent_id = r.agent.id;
    scan_id = runtime_scan_id r;
    status = received;
    collected_at = r.collected_at;
    received_at = now;
    completed_at = none;
    summary = r.summary;
    error = none;
  }

  -- The writes of the first transaction.
  unfoldable pub receive_batch : Report → String → ℕ → Store → Store
  unfolding runtime_scan_id
  receive_batch r actor now st = record st {
    runtime_discovery_agents =
        upsert_row (has_discovery r.agent.id)
          (λ old. record (discovery_row r.agent now) { first_seen = old.first_seen })
          (discovery_row r.agent now) st.runtime_discovery_agents;
    scan_jobs =
        add_scan (new_scan (runtime_scan_id r) "runtime-agent" (scan_request r) actor now)
          st.scan_jobs;
    runtime_discovery_batches =
        upsert_row (has_batch r.batch_id)
          (λ old. record old { status = received; summary = r.summary; error = none })
          (new_batch r now) st.runtime_discovery_batches;
  }

  -- The transaction that writes the processes and the observations and finishes the batch.
  unfoldable pub write_runtime : Report → String → ℕ → Store → Result Store
  unfolding write_processes write_observations finish_batch audit_conn runtime_scan_id
      summary_fields
  write_runtime r actor now st = do
    instances ← write_processes r.agent.id now r.processes st.runtime_process_instances
    written ←
        write_observations r.batch_id r.agent.id now r.observations
          (record st { runtime_process_instances = instances })
    ok (
        audit_conn now actor "runtime.ingest" "runtime_batch" (name_id r.batch_id)
          (obj (
            update (dict (("agent_id", str r.agent.id) ∷ ("scan_id", str (runtime_scan_id r)) ∷ []))
              (summary_fields r.summary)))
          (finish_batch r now written))

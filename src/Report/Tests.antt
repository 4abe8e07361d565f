-- ===== src/Report/Tests.antt =====
-- Reports of concrete agents.
use pq_migration_gateway.Prelude.{◌≡◌, refl, ℕ, ◌↔◌, [], ◌∷◌, none}
use pq_migration_gateway.Prelude.Int.{pos, negsuc}
use pq_migration_gateway.Result.{ok}
use pq_migration_gateway.Json.{Json, Fields, num, str, arr, obj, array, dict, get, get_or}
use pq_migration_gateway.Report.Types.{RuntimeProcess, Observation, Report}
use pq_migration_gateway.Report.Texts.{limited_text, stable_id, int_text, classify_runtime_signal}
use pq_migration_gateway.Gateway.Text.{join}
use pq_migration_gateway.Store.Rows.{find_row}
use pq_migration_gateway.Report.Processes.{Host}
use pq_migration_gateway.Report.Bounded.{bounded_json}
use pq_migration_gateway.Report.Limits.{Fits}
use pq_migration_gateway.Report.Unchanged.{bounded_json-Fits}
use pq_migration_gateway.Report.Normalize.{normalize_runtime_report}
use pq_migration_gateway.Report.Accepted.{IsNormal, normalize_runtime_report-IsNormal}

abbrev pub test_host : Host
test_host = record {
  python_str = λ _. "?";
  int_of_text = λ _. none;
  int_of_real = λ _. none;
  sha256 = λ _. "abc";
  dumped_size = λ _. 1000;
  now = "2026-01-01T00:00:00+00:00";
}

abbrev pub one_process : Json
one_process = obj (
    dict (
      ("pid", num (pos 7))
      ∷ ("start_time_ticks", num (pos 90))
      ∷ ("executable", str "/bin/a")
      ∷ []))

-- Three observations: one is linked by its process, one repeats it, one has no process.
abbrev pub event : ℕ → Json
event pid = obj (
    dict (
      ("pid", num (pos pid))
      ∷ ("start_time_ticks", num (pos 90))
      ∷ ("evidence_type", str "runtime_crypto_api")
      ∷ ("source", str "ebpf_uprobe")
      ∷ ("method", str "RSA_sign")
      ∷ ("count", num (pos 0))
      ∷ []))

abbrev pub payload : Json
payload = obj (
    dict (
      ("agent", obj (dict (("id", str "node-1") ∷ [])))
      ∷ ("batch_id", str "b1")
      ∷ ("processes", arr (array (one_process ∷ [])))
      ∷ ("observations", arr (array (event 7 ∷ event 7 ∷ event 8 ∷ [])))
      ∷ []))

abbrev first_process : RuntimeProcess
first_process = record {
  process_instance_id = "proc-abc";
  workload_asset_id = "runtime-asset-abc";
  pid = pos 7;
  start_time_ticks = pos 90;
  executable = "/bin/a";
  command = "";
  uid = negsuc 0;
  mapped_crypto_libraries = [];
  container = record { id = ""; runtime = ""; pod_uid = ""; cgroup = "" };
  namespaces = obj Fields.end;
  metadata = obj Fields.end;
}

abbrev pub first_event : Observation
first_event = record {
  observation_key = "runtime-evidence-abc";
  process_instance_id = "proc-abc";
  workload_asset_id = "runtime-asset-abc";
  pid = pos 7;
  start_time_ticks = pos 90;
  evidence_type = "runtime_crypto_api";
  method = "RSA_sign";
  library = "";
  algorithm = "classical-public-key";
  risk = "HIGH";
  pq_status = "quantum_vulnerable";
  confidence = "HIGH";
  source = "ebpf_uprobe";
  observed_at = "2026-01-01T00:00:00+00:00";
  count = pos 1;
  metadata = obj Fields.end;
}

abbrev pub sample : Report
sample = record {
  batch_id = "b1";
  collected_at = "2026-01-01T00:00:00+00:00";
  agent = record {
    id = "node-1";
    hostname = "";
    version = "";
    boot_id = "";
    mode = "host";
    capabilities = [];
    metadata = obj Fields.end;
  };
  processes = first_process ∷ [];
  observations = first_event ∷ [];
  summary = record {
    processes = 1;
    containers = 0;
    mapped_library_observations = 0;
    runtime_call_observations = 1;
  };
}

pub sample_normalized : normalize_runtime_report test_host payload ≡ ok sample
unfolding normalize_runtime_report get_or get limited_text stable_id join int_text find_row
    classify_runtime_signal bounded_json
sample_normalized = refl

normalize_runtime_report-IsNormal_example : IsNormal test_host sample
normalize_runtime_report-IsNormal_example =
    normalize_runtime_report-IsNormal test_host payload sample sample_normalized

bounded_json-Fits_example : (bounded_json payload ≡ payload) ↔ Fits 6 payload
bounded_json-Fits_example = bounded_json-Fits payload

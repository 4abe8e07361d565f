-- ===== src/Discovery/Tests.antt =====
-- Runtime reports on concrete databases.
use pq_migration_gateway.Prelude.{◌≡◌, refl, false, [], ◌∷◌, none, some, inl}
use pq_migration_gateway.Prelude.Int.{pos}
use pq_migration_gateway.Result.{Result, ok, err, type_error}
use pq_migration_gateway.Json.{
  Json, Fields, num, str, arr, obj, array, dict, get, get_or, find, insert, update,
}
use pq_migration_gateway.Exec.{◌>>=◌, catch, commit}
use pq_migration_gateway.Exec.Ends.{Ends}
use pq_migration_gateway.Gateway.Text.{join}
use pq_migration_gateway.Store.Rows.{find_row, upsert_row, update_rows, delete_rows}
use pq_migration_gateway.Store.Releases.{audit_conn}
use pq_migration_gateway.Store.Scans.{update_scan_job, scan_status_of, find_scan, find_asset}
use pq_migration_gateway.Store.Metrics.{set_known_metric, increment_metric}
use pq_migration_gateway.Store.Inventory.{sorted_set, ingest_scan_inventory}
use pq_migration_gateway.Report.Texts.{limited_text, stable_id, int_text, classify_runtime_signal}
use pq_migration_gateway.Report.Bounded.{bounded_json}
use pq_migration_gateway.Report.Normalize.{normalize_runtime_report}
use pq_migration_gateway.Report.Inventory.{runtime_inventory}
use pq_migration_gateway.Store.Tables.{Batch, ingested, Store, empty_store}
use pq_migration_gateway.Report.Types.{Report}
use pq_migration_gateway.Report.Tests.{
  test_host, one_process, payload, first_event, sample, sample_normalized,
}
use pq_migration_gateway.Discovery.Writes.{
  find_batch, check_batch, get_runtime_batch, receive_batch, write_runtime, report_metrics,
}
use pq_migration_gateway.Discovery.Ingest.{ingest_report, ingest_runtime_report}
use pq_migration_gateway.Discovery.Frames.{Present}
use pq_migration_gateway.Discovery.Outcome.{Failed, Returned, ingest_report-Ends}
use pq_migration_gateway.Discovery.Raised.{ingest_runtime_report-raises}
use pq_migration_gateway.Discovery.Success.{ingest_report-returns}
use pq_migration_gateway.Discovery.Again.{ingest_runtime_report-again}

sample_new : check_batch sample (find_batch sample.batch_id empty_store) ≡ ok false
unfolding check_batch find_batch find_row
sample_new = refl

ingest_report-Ends_example :
    Ends
      (Returned test_host 5 "ops" sample)
      (Present Failed sample)
      (ingest_report test_host 5 "ops" sample empty_store)
ingest_report-Ends_example = ingest_report-Ends test_host 5 "ops" sample empty_store sample_new

abbrev first_batch : Batch
first_batch = record {
  batch_id = "b1";
  agent_id = "node-1";
  scan_id = "runtime-scan-abc";
  status = ingested;
  collected_at = "2026-01-01T00:00:00+00:00";
  received_at = 5;
  completed_at = some 5;
  summary = sample.summary;
  error = none;
}

abbrev first_run : Result Batch × Store
first_run = ingest_runtime_report test_host 5 "ops" payload empty_store

first_run_taken : first_run ≡ (ok first_batch, first_run.1)
unfolding ingest_runtime_report ◌>>=◌ normalize_runtime_report get_or get limited_text stable_id
    join int_text find_row classify_runtime_signal bounded_json check_batch find_batch catch commit
    update_scan_job scan_status_of receive_batch runtime_inventory ingest_scan_inventory
    write_runtime report_metrics get_runtime_batch upsert_row update_rows delete_rows find find_scan
    insert update set_known_metric increment_metric audit_conn find_asset sorted_set
first_run_taken = refl

ingest_runtime_report-again_example :
    ingest_runtime_report test_host 6 "ops" payload first_run.1 ≡ (ok first_batch, first_run.1)
ingest_runtime_report-again_example =
    ingest_runtime_report-again test_host 5 6 "ops" "ops" payload payload sample sample empty_store
      first_run.1 first_batch sample_normalized sample_normalized refl refl first_run_taken

ingest_report-returns_example :
    (b : Batch) × (st' : Store) × (ingest_runtime_report test_host 5 "ops" payload empty_store
      ≡ (ok b, st'))
    × Returned test_host 5 "ops" sample b st'
ingest_report-returns_example =
    ingest_report-returns test_host payload sample 5 "ops" empty_store sample_normalized
      ((Fields.end, refl), tt) (refl, tt) sample_new

-- The event of the sample, with a text as its metadata.
abbrev texted_event : Json
texted_event = obj (
    dict (
      ("pid", num (pos 7))
      ∷ ("start_time_ticks", num (pos 90))
      ∷ ("evidence_type", str "runtime_crypto_api")
      ∷ ("source", str "ebpf_uprobe")
      ∷ ("method", str "RSA_sign")
      ∷ ("count", num (pos 0))
      ∷ ("metadata", str "x")
      ∷ []))

abbrev texted_payload : Json
texted_payload = obj (
    dict (
      ("agent", obj (dict (("id", str "node-1") ∷ [])))
      ∷ ("batch_id", str "b1")
      ∷ ("processes", arr (array (one_process ∷ [])))
      ∷ ("observations", arr (array (texted_event ∷ [])))
      ∷ []))

abbrev texted : Report
texted = record sample { observations = record first_event { metadata = str "x" } ∷ [] }

texted_normalized : normalize_runtime_report test_host texted_payload ≡ ok texted
unfolding normalize_runtime_report get_or get limited_text stable_id join int_text find_row
    classify_runtime_signal bounded_json
texted_normalized = refl

texted_new : check_batch texted (find_batch texted.batch_id empty_store) ≡ ok false
unfolding check_batch find_batch find_row
texted_new = refl

ingest_runtime_report-raises_example :
    (st' : Store) × (ingest_runtime_report test_host 5 "ops" texted_payload empty_store
      ≡ (err (type_error "not a mapping"), st'))
    × Present Failed texted st'
ingest_runtime_report-raises_example =
    ingest_runtime_report-raises test_host 5 "ops" texted_payload texted empty_store
      texted_normalized (inl tt) texted_new

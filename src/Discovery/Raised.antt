-- ===== src/Discovery/Raised.antt =====
-- `ingest_runtime_report` of manager/config_store.py on a report with metadata that are no object.
use pq_migration_gateway.Prelude.{
  ◌≡◌, refl, subst, ◌∙◌, ℕ, String, true, false, none, some, is_some, Any,
}
use pq_migration_gateway.Result.{Error, ok, err, type_error}
use pq_migration_gateway.Json.{Json}
use pq_migration_gateway.Exec.{◌>>=◌, commit, catch}
use pq_migration_gateway.Exec.Ends.{Ends}
use pq_migration_gateway.Store.Tables.{running, failed, Store}
use pq_migration_gateway.Store.Scans.{find_scan, scan_status_of}
use pq_migration_gateway.Report.Types.{Observation, Report}
use pq_migration_gateway.Report.Processes.{Host}
use pq_migration_gateway.Report.Normalize.{normalize_runtime_report}
use pq_migration_gateway.Discovery.Writes.{
  find_batch, check_batch, runtime_scan_id, receive_batch, fail_batch,
}
use pq_migration_gateway.Discovery.Ingest.{persist, fail_report, take_in, ingest_runtime_report}
use pq_migration_gateway.Discovery.Frames.{Present}
use pq_migration_gateway.Discovery.Outcome.{Failed, Returned, ingest_report-new, ingest_report-Ends}
use pq_migration_gateway.Discovery.Taken.{NoObject, runtime_inventory-raises}
use pq_migration_gateway.Discovery.Success.{update_scan_job-returns, add_scan-has}

module _ (host : Host) (now : ℕ) (actor : String) (r : Report)
    (bad : Any (λ (o : Observation). NoObject o.metadata) r.observations) where
  abbrev raised : Error
  raised = type_error "not a mapping"

  abbrev scan : String
  scan = runtime_scan_id host r

  persist-raises :
      (st : Store)
      → is_some (find_scan scan st) ≡ true
      → (st' : Store) × (persist host now actor r st ≡ (err raised, st'))
        × (is_some (find_scan scan st') ≡ true)
  unfolding persist ◌>>=◌ commit scan_status_of
  persist-raises st there =
      let (st', e, kept) = update_scan_job-returns scan "RUNNING" running none now st refl there in
      (st', rw (e, runtime_inventory-raises r bad) refl, kept)

  fail_report-raises :
      (st : Store)
      → is_some (find_scan scan st) ≡ true
      → (st' : Store) × (fail_report host now actor r raised st ≡ (err raised, st'))
  unfolding fail_report fail_batch find_scan ◌>>=◌ commit scan_status_of
  fail_report-raises st there =
      let (st', e, _) =
        update_scan_job-returns scan "FAILED" failed (some raised) now (fail_batch r raised now st)
          refl there in
      (st', rw e refl)

  receive_batch-scan :
      (st : Store) → is_some (find_scan scan (receive_batch host r actor now st)) ≡ true
  unfolding receive_batch find_scan
  receive_batch-scan st = add_scan-has _ st.scan_jobs

  take_in-raises : (st : Store) → (st' : Store) × (take_in host now actor r st ≡ (err raised, st'))
  unfolding take_in ◌>>=◌ catch
  take_in-raises st =
      let (st₁, p, there) =
        persist-raises (receive_batch host r actor now st) (receive_batch-scan st) in
      let (st₂, f) = fail_report-raises st₁ there in (st₂, rw (p, f) refl)

-- If normalize_runtime_report returns a report of which one observation has metadata that are no
-- object, and the batch is not known, or is this agent's and not INGESTED, then ingest_runtime_report
-- raises a TypeError, the batch is FAILED and the agent DEGRADED.
pub ingest_runtime_report-raises :
    (host : Host) (now : ℕ) (actor : String) (payload : Json) (r : Report) (st : Store)
    → normalize_runtime_report host payload ≡ ok r
    → Any (λ (o : Observation). NoObject o.metadata) r.observations
    → check_batch r (find_batch r.batch_id st) ≡ ok false
    → (st' : Store) × (ingest_runtime_report host now actor payload st
        ≡ (err (type_error "not a mapping"), st'))
      × Present Failed r st'
unfolding ingest_runtime_report ◌>>=◌
ingest_runtime_report-raises host now actor payload r st n bad new =
    let (st', e) = take_in-raises host now actor r bad st in
    let run = ingest_report-new host now actor r st new ∙ e in
    (
      st',
      rw n run,
      subst (Ends (Returned host now actor r) (Present Failed r)) run
          (ingest_report-Ends host now actor r st new),
    )

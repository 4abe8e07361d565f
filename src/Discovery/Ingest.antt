-- ===== src/Discovery/Ingest.antt =====
-- `ingest_runtime_report` of manager/config_store.py. It runs several transactions, so what was
-- committed before an exception stays.
use pq_migration_gateway.Prelude.{ℕ, String, Bool, true, false, none, some}
use pq_migration_gateway.Result.{Error}
use pq_migration_gateway.Json.{Json}
use pq_migration_gateway.Exec.{Exec, query, modify, raise, catch, commit, ◌>>=◌, ◌>>◌}
use pq_migration_gateway.Store.Tables.{Batch, Store}
use pq_migration_gateway.Store.Scans.{update_scan_job}
use pq_migration_gateway.Store.Inventory.{ingest_scan_inventory}
use pq_migration_gateway.Report.Types.{Report}
use pq_migration_gateway.Report.Processes.{Host}
use pq_migration_gateway.Report.Normalize.{normalize_runtime_report}
use pq_migration_gateway.Report.Inventory.{runtime_inventory}
use pq_migration_gateway.Discovery.Writes.{
  find_batch, get_runtime_batch, check_batch, runtime_scan_id, receive_batch, write_runtime,
  fail_batch, report_metrics,
}

module _ (host : Host) (now : ℕ) (actor : String) where
  -- The body of the `try`.
  unfoldable pub persist : Report → Exec Store (Unit {0})
  unfolding runtime_scan_id
  persist r = do
    commit (update_scan_job (runtime_scan_id host r) "RUNNING" none "" none now)
    inventory ← query (λ _. runtime_inventory r)
    commit (ingest_scan_inventory host.python_str (runtime_scan_id host r) now inventory actor)
    commit (write_runtime host r actor now)

  -- `except Exception`
  unfoldable pub fail_report : Report → Error → Exec Store (Unit {0})
  unfolding runtime_scan_id
  fail_report r e = do
    modify (fail_batch r e now)
    commit (update_scan_job (runtime_scan_id host r) "FAILED" none "" (some e) now)
    raise e

  -- What follows for a batch that is not done.
  unfoldable pub take_in : Report → Exec Store Batch
  unfolding persist fail_report
  take_in r = do
    modify (receive_batch host r actor now)
    catch (persist r) (fail_report r)
    modify (report_metrics r now)
    query (get_runtime_batch r.batch_id)

  -- `if str(existing["status"]) == "INGESTED"`
  unfoldable pub unless_done : Report → Bool → Exec Store Batch
  unfolding take_in
  unless_done r true = query (get_runtime_batch r.batch_id)
  unless_done r false = take_in r

  -- The method on a report that is normalised.
  unfoldable pub ingest_report : Report → Exec Store Batch
  unfolding unless_done
  ingest_report r = do
    done ← query (λ st. check_batch r (find_batch r.batch_id st))
    unless_done r done

  unfoldable pub ingest_runtime_report : Json → Exec Store Batch
  unfolding ingest_report
  ingest_runtime_report payload = do
    report ← query (λ _. normalize_runtime_report host payload)
    ingest_report report

-- ===== src/Migration/Job.antt =====
-- `submit` and `_run` of manager/scan_orchestrator.py.
use pq_migration_gateway.Prelude.{ℕ, String, append, List, none, some}
use pq_migration_gateway.Result.{Result}
use pq_migration_gateway.Exec.{Exec, query, commit, catch, ◌>>=◌, ◌>>◌}
use pq_migration_gateway.Json.{Json, Fields, obj}
use pq_migration_gateway.Store.Tables.{ScanJob, Store}
use pq_migration_gateway.Store.Scans.{create_scan_job, get_scan_job, update_scan_job}
use pq_migration_gateway.Store.Inventory.{ingest_scan_inventory}
use pq_migration_gateway.Report.Processes.{Host}
use pq_migration_gateway.Migration.Request.{Scanner, validate_request}
use pq_migration_gateway.Migration.Command.{scan_command}

-- `mkdir` is `Path.mkdir(parents=True, exist_ok=False)`. `scan` runs the scanner with the arguments and
-- reads the inventory that it has written, which raises on an argument that is no text, an exit code, a
-- timeout, and a file that is missing or no JSON object.
module _ (python_str : Json → String) (mkdir : String → Result (Unit {0}))
    (scan : List Json → Result Fields) (control_dir : String) (actor : String) (now : ℕ) where
  abbrev pub output_dir : String → String
  output_dir id = append control_dir (append "/scans/" id)

  abbrev pub output_in : String → String → String
  output_in id file = append (output_dir id) (append "/" file)

  -- The `try` of `_run`
  unfoldable pub scan_and_ingest : String → List Json → Exec Store (Unit {0})
  unfolding ingest_scan_inventory
  scan_and_ingest id command = do
    inventory ← query (λ _. scan command)
    commit (ingest_scan_inventory python_str id now inventory actor)

  -- `_run`. What raises before the `try` leaves the job as it is then.
  unfoldable pub run_scan : String → Fields → Exec Store (Unit {0})
  unfolding scan_and_ingest update_scan_job scan_command
  run_scan id request = do
    query (λ _. mkdir (output_dir id))
    commit (update_scan_job id "RUNNING" none (output_in id "inventory.json") none now)
    command ← query (λ _.
        scan_command python_str (output_in id "inventory.json") (output_in id "inventory.csv")
          request)
    catch (scan_and_ingest id command) (λ e.
        commit (update_scan_job id "FAILED" none (output_in id "inventory.json") (some e) now))

-- `submit`, with a fresh id: the job that it creates is run later.
unfoldable pub submit : Host → Scanner → String → ℕ → String → Fields → Exec Store ScanJob
unfolding validate_request create_scan_job get_scan_job
submit h s fresh now actor request = do
  normalized ← query (λ _. validate_request h s request)
  commit (create_scan_job (append "scan-" fresh) "enterprise" (obj normalized) actor now)
  query (get_scan_job (append "scan-" fresh))

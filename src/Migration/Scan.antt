-- ===== src/Migration/Scan.antt =====
-- A scan request that `validate_request` of manager/scan_orchestrator.py lets through.
use pq_migration_gateway.Prelude.{List, ◌⊎◌, ◌≡◌, refl, true, false, [], ◌∷◌, ◌==◌}
use pq_migration_gateway.Prelude.Int.{pos}
use pq_migration_gateway.Prelude.Text.{lower}
use pq_migration_gateway.Result.{Result, ok, err, os_error}
use pq_migration_gateway.Json.{
  Json, Fields, num, str, arr, obj, array, dict, find, get, get_or, insert,
}
use pq_migration_gateway.Report.Processes.{int_of}
use pq_migration_gateway.Report.Tests.{test_host}
use pq_migration_gateway.Migration.Request.{
  Scanner, authorized_path, authorized_paths, limit, limits_of, with_ebpf, validate_request,
}
use pq_migration_gateway.Exec.Ends.{Ends}
use pq_migration_gateway.Store.Rows.{find_row}
use pq_migration_gateway.Store.Tables.{succeeded, failed, ScanJob, Store, empty_store}
use pq_migration_gateway.Store.Scans.{find_scan, new_scan}
use pq_migration_gateway.Migration.Job.{run_scan}
use pq_migration_gateway.Migration.Ended.{HasStatus, Known, run_scan-Ends}
use pq_migration_gateway.Migration.Authorized.{IsAuthorized, validate_request-IsAuthorized}

-- Every path is below /srv.
abbrev scanner : Scanner
scanner = record {
  resolve = λ path. path;
  exists = λ path. true;
  under = λ path root. root == "/srv";
  allowed_roots = "/opt" ∷ "/srv" ∷ [];
  process_scan_enabled = false;
  ebpf_enabled = false;
}

abbrev request : Fields
request = dict (
    ("roots", arr (array (str "/srv/app" ∷ str "/srv/web" ∷ [])))
    ∷ ("limits", obj (dict (("max_files", num (pos 5000000)) ∷ [])))
    ∷ [])

abbrev fields_of : Result Fields → Fields
fields_of (ok fs) = fs
fields_of (err e) = Fields.end

request_accepted :
    validate_request test_host scanner request
    ≡ ok (fields_of (validate_request test_host scanner request))
unfolding validate_request authorized_path authorized_paths limit limits_of with_ebpf find get
    get_or insert lower int_of
request_accepted = refl

validate_request-IsAuthorized_example :
    IsAuthorized test_host scanner (fields_of (validate_request test_host scanner request))
validate_request-IsAuthorized_example =
    validate_request-IsAuthorized test_host scanner request
      (fields_of (validate_request test_host scanner request)) request_accepted

abbrev normalized : Fields
normalized = fields_of (validate_request test_host scanner request)

-- The job of the request, which is queued.
abbrev job : ScanJob
job = new_scan "scan-1" "enterprise" (obj normalized) "ops" 3

abbrev database : Store
database = record empty_store { scan_jobs = job ∷ [] }

job-Known : Known "scan-1" database
unfolding find_scan find_row
job-Known = (job, refl)

-- The scanner fails.
abbrev failing_scan : List Json → Result Fields
failing_scan command = err (os_error "scanner")

run_scan-Ends_example :
    Ends
      (λ _ st. HasStatus "scan-1" succeeded st ⊎ HasStatus "scan-1" failed st)
      (λ _. ⊥)
      (run_scan
        (λ v. "")
        (λ dir. ok tt)
        failing_scan
        "/control"
        "ops"
        4
        "scan-1"
        normalized
        database)
run_scan-Ends_example =
    run_scan-Ends (λ v. "") (λ dir. ok tt) failing_scan "/control" "ops" 4 "scan-1" test_host
      scanner request normalized database request_accepted refl job-Known

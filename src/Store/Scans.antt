-- ===== src/Store/Scans.antt =====
-- Scan jobs in manager/config_store.py: `create_scan_job`, `update_scan_job`, `get_scan_job`,
-- `create_asset_assessment`, `get_migration_plan` and `upsert_migration_plan`.
use pq_migration_gateway.Prelude.{
  ℕ, String, Bool, not, [], ◌∷◌, Option, none, some, ◌==◌, if◌then◌else◌, is_some, any,
}
use pq_migration_gateway.Result.{
  Error, Result, ok, value_error, key_error, integrity_error, ◌>>=◌, ◌>>◌, require,
}
use pq_migration_gateway.Json.{Json, Fields, str, obj, dict}
use pq_migration_gateway.Store.Rows.{find_row, update_rows, upsert_row, from_row}
use pq_migration_gateway.Store.Tables.{
  ScanStatus, queued, running, succeeded, failed, ScanJob, CryptoAsset, Assessment, PlanRow, Store,
  name_id,
}
use pq_migration_gateway.Store.Releases.{audit_conn, or_raise}

abbrev pub has_scan : String → ScanJob → Bool
has_scan id job = job.scan_id == id

unfoldable pub find_scan : String → Store → Option ScanJob
find_scan id st = find_row (has_scan id) st.scan_jobs

-- `get_scan_job`
unfoldable pub get_scan_job : String → Store → Result ScanJob
get_scan_job id st = or_raise (key_error id) (find_scan id st)

abbrev pub new_scan : String → String → Json → String → ℕ → ScanJob
new_scan id type request actor now = record {
  scan_id = id;
  scan_type = type;
  status = queued;
  request = request;
  summary = obj Fields.end;
  output_path = "";
  error = none;
  actor = actor;
  created_at = now;
  started_at = none;
  completed_at = none;
}

-- `create_scan_job`; the primary key refuses a second job of the same id
unfoldable pub create_scan_job : String → String → Json → String → ℕ → Store → Result Store
unfolding find_scan audit_conn
create_scan_job id type request actor now st = do
  require (not (is_some (find_scan id st))) (integrity_error "scan_jobs.scan_id")
  ok (
      audit_conn now actor "scan.create" "scan_job" (name_id id)
        (obj (dict (("scan_type", str type) ∷ [])))
        (record st { scan_jobs = new_scan id type request actor now ∷ st.scan_jobs }))

unfoldable pub scan_status_of : String → Option ScanStatus
scan_status_of s =
    if s == "QUEUED"
    then some queued
    else if s == "RUNNING"
    then some running
    else if s == "SUCCEEDED"
    then some succeeded
    else if s == "FAILED"
    then some failed
    else none

-- `COALESCE(a, b)`
abbrev pub coalesce {ℓ} : {A : Type ℓ} → Option A → Option A → Option A
coalesce none b = b
coalesce (some a) b = some a

abbrev pub started_by : ScanStatus → ℕ → Option ℕ
started_by running now = some now
started_by _ now = none

abbrev pub completed_by : ScanStatus → ℕ → Option ℕ
completed_by succeeded now = some now
completed_by failed now = some now
completed_by _ now = none

-- The UPDATE of `update_scan_job`: the first start and the last completion are kept.
abbrev pub set_scan : ScanStatus → Option Json → String → Option Error → ℕ → ScanJob → ScanJob
set_scan status summary output error now job = record job {
  status = status;
  summary = from_row job.summary (λ s. s) summary;
  output_path = if output == "" then job.output_path else output;
  error = error;
  started_at = coalesce job.started_at (started_by status now);
  completed_at = coalesce (completed_by status now) job.completed_at;
}

unfoldable pub update_scan_job :
    String → String → Option Json → String → Option Error → ℕ → Store → Result Store
unfolding find_scan
update_scan_job id status summary output error now st = do
  s ← or_raise (value_error "unknown scan status") (scan_status_of status)
  require (is_some (find_scan id st)) (key_error id)
  ok (record st {
    scan_jobs = update_rows (has_scan id) (set_scan s summary output error now) st.scan_jobs;
  })

abbrev pub has_asset : String → CryptoAsset → Bool
has_asset id a = a.asset_id == id

unfoldable pub find_asset : String → Store → Option CryptoAsset
find_asset id st = find_row (has_asset id) st.crypto_assets

abbrev has_assessment : String → Assessment → Bool
has_assessment id a = a.assessment_id == id

-- `create_asset_assessment`, for an asset that exists
unfoldable pub create_asset_assessment :
    String → String → String → Json → String → ℕ → Store → Result Store
unfolding find_asset audit_conn
create_asset_assessment id asset risk result actor now st = do
  require (is_some (find_asset asset st)) (key_error asset)
  require (not (any (has_assessment id) st.asset_assessments))
      (integrity_error "asset_assessments.assessment_id")
  ok (
      audit_conn now actor "asset.assess" "crypto_asset" (name_id asset)
        (obj (dict (("assessment_id", str id) ∷ ("risk", str risk) ∷ [])))
        (record st {
          asset_assessments =
              record {
                assessment_id = id;
                asset_id = asset;
                risk = risk;
                result = result;
                actor = actor;
                created_at = now;
              }
              ∷ st.asset_assessments;
        }))

abbrev pub has_plan : String → PlanRow → Bool
has_plan id p = p.plan_id == id

unfoldable pub find_plan : String → Store → Option PlanRow
find_plan id st = find_row (has_plan id) st.migration_plans

-- `get_migration_plan`
unfoldable pub get_migration_plan : String → Store → Result PlanRow
get_migration_plan id st = or_raise (key_error id) (find_plan id st)

-- `ON CONFLICT(plan_id)`: the asset, the service and the creation time stay; a version that was
-- reached is not forgotten.
abbrev pub change_plan : PlanRow → PlanRow → PlanRow
change_plan new old = record old {
  status = new.status;
  compatibility_version = coalesce new.compatibility_version old.compatibility_version;
  strict_version = coalesce new.strict_version old.strict_version;
  plan = new.plan;
  actor = new.actor;
  updated_at = new.updated_at;
}

-- `upsert_migration_plan`, for an asset that exists
unfoldable pub upsert_migration_plan : PlanRow → Store → Result Store
unfolding find_asset audit_conn
upsert_migration_plan p st = do
  require (is_some (find_asset p.asset_id st)) (key_error p.asset_id)
  ok (
      audit_conn p.updated_at p.actor "migration.plan" "migration_plan" (name_id p.plan_id)
        (obj (
          dict (
            ("asset_id", str p.asset_id)
            ∷ ("service_id", str p.service_id)
            ∷ ("status", str p.status)
            ∷ [])))
        (record st {
          migration_plans = upsert_row (has_plan p.plan_id) (change_plan p) p st.migration_plans;
        }))

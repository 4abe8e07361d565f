-- ===== src/Migration/Tests.antt =====
-- `migrate` of manager/scan_orchestrator.py on a concrete database.
use pq_migration_gateway.Prelude.{
  ◌≡◌, refl, String, true, false, [], ◌∷◌, none, some, ◌==◌, if◌then◌else◌,
}
use pq_migration_gateway.Prelude.Int.{pos}
use pq_migration_gateway.Prelude.Text.{strip}
use pq_migration_gateway.Result.{Result, ok, err, value_error, type_error}
use pq_migration_gateway.Json.{Json, Fields, bool, real, str, obj, dict, get, get_or, find}
use pq_migration_gateway.Store.Rows.{find_row}
use pq_migration_gateway.Store.Tables.{
  healthy, compatibility, CryptoAsset, PlanRow, StateRow, VersionRow, Store, empty_store,
}
use pq_migration_gateway.Store.Releases.{get_version, find_version}
use pq_migration_gateway.StateMachine.{get_state, is_rate}
use pq_migration_gateway.World.{Host, World, missing}
use pq_migration_gateway.Migration.Assess.{Float, nan, finite, Python}
use pq_migration_gateway.Migration.Promote.{maximum_rate, rate_refused, as_rate, check_verify}

abbrev pub host : Host
host = record {
  outcome = λ log. none;
  active_connections = λ log. none;
  sha256 = λ s. s;
  digest = λ m. "digest";
  hmac = λ key m. key;
  python_str = λ v. "";
}

abbrev text_float : String → Result Float
text_float s =
    if s == "nan"
    then ok nan
    else if s == "0.01"
    then ok (finite (pos 10000))
    else if s == "0.0"
    then ok (finite (pos 0))
    else if s == "1.0"
    then ok (finite (pos 1000000))
    else err (value_error "float")

abbrev to_float : Json → Result Float
to_float (real s) = text_float s
to_float (str s) = text_float s
to_float v = err (type_error "float")

abbrev pub python : Python
python = record {
  dumps = λ v. "";
  as_float = to_float;
  float_text = λ f. "0.0";
  column_text = λ v. "";
  fresh_id = "1";
}

abbrev pub asset : CryptoAsset
asset = record {
  asset_id = "asset-1";
  latest_scan_id = "scan-1";
  asset_type = "library";
  path = "/srv/app";
  algorithm = "RSA";
  risk = "HIGH";
  pq_status = "VULNERABLE";
  payload = obj Fields.end;
  created_at = 1;
  updated_at = 1;
}

abbrev plan : PlanRow
plan = record {
  plan_id = "plan-1";
  asset_id = "asset-1";
  service_id = "web";
  status = "COMPATIBILITY_STAGED";
  compatibility_version = some 1;
  strict_version = none;
  plan = obj Fields.end;
  actor = "ops";
  created_at = 2;
  updated_at = 2;
}

abbrev service_state : StateRow
service_state = record {
  service_id = "web";
  state = compatibility;
  config_version = some 1;
  updated_at = 2;
  operator = "ops";
  reason = "staged";
}

abbrev release : VersionRow
release = record {
  version = 1;
  checksum = "c";
  created_at = 2;
  operator = "ops";
  status = healthy;
  rollback_from = none;
  source = obj Fields.end;
  rendered_config = "";
  error = none;
}

abbrev database : Store
database = record empty_store {
  crypto_assets = asset ∷ [];
  migration_plans = plan ∷ [];
  service_states = service_state ∷ [];
  config_versions = release ∷ [];
}

abbrev pub world : World
world = record {
  store = database;
  releases =
      λ v. record { exists = false; services_json = none; manifest = missing; nginx_conf = none };
  desired = missing;
  observed = missing;
  active = none;
  previous = none;
  temporary = none;
  commands = [];
  now = 9;
}

-- A request to promote the service of the plan.
abbrev pub request : Json → Fields
request rate = dict (
    ("action", str "VERIFY")
    ∷ ("plan_id", str "plan-1")
    ∷ ("passed", bool true)
    ∷ ("verification_result", str " handshake ok ")
    ∷ ("fallback_rate", rate)
    ∷ [])

-- The checks pass on this database.
verify_passes :
    check_verify host python plan (request (real "0.0")) database
    ≡ ok (record { verification = "handshake ok"; rate = finite (pos 0); plan = Fields.end })
unfolding check_verify get get_or find strip get_state find_row get_version find_version
    maximum_rate rate_refused
verify_passes = refl

-- They pass with a NaN as the rate too, which `transition` refuses.
nan_passes :
    (check_verify host python plan (request (str "nan")) database
      ≡ ok (record { verification = "handshake ok"; rate = nan; plan = Fields.end }))
    × (is_rate (some (as_rate nan)) ≡ false)
unfolding check_verify get get_or find strip get_state find_row get_version find_version
    maximum_rate rate_refused
nan_passes = (refl, refl)

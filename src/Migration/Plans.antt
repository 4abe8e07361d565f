-- ===== src/Migration/Plans.antt =====
-- The plans of manager/scan_orchestrator.py, and what `migrate` reads of a request.
use pq_migration_gateway.Prelude.{
  ℕ, String, Bool, true, false, [], ◌∷◌, Option, none, some, append, is_some,
}
use pq_migration_gateway.Prelude.Int.{ℤ, pos}
use pq_migration_gateway.Prelude.Text.{lower}
use pq_migration_gateway.Result.{Result, ok, err, type_error}
use pq_migration_gateway.Json.{
  Json, Fields, null, bool, num, real, str, arr, obj, get, get_or, insert, dict,
}
use pq_migration_gateway.Store.Tables.{PlanRow, Store}
use pq_migration_gateway.Store.Inventory.{text}
use pq_migration_gateway.Report.Texts.{cut}
use pq_migration_gateway.StateMachine.{Change, get_state}
use pq_migration_gateway.Discovery.Lists.{AssetReport}
use pq_migration_gateway.World.{Host}
use pq_migration_gateway.Migration.Assess.{Python}
use pq_migration_gateway.Migration.Promote.{Verified, as_rate}

abbrev pub change : String → String → Option ℕ → Option String → Option ℤ → Change
change actor reason version verification rate = record {
  operator = actor;
  reason = reason;
  config_version = version;
  verification_result = verification;
  fallback_rate = rate;
}

-- `int(manifest["version"])`
abbrev pub version_in : Fields → Result ℕ
version_in manifest = elim (get "version" manifest) [
  | num (pos v) ↦ ok v
  | _ ↦ err (type_error "version")
]

abbrev pub plan_row :
    String → String → String → String → Option ℕ → Option ℕ → Fields → String → ℕ → PlanRow
plan_row plan_id asset_id sid status compatibility_version strict_version plan actor now = record {
  plan_id = plan_id;
  asset_id = asset_id;
  service_id = sid;
  status = status;
  compatibility_version = compatibility_version;
  strict_version = strict_version;
  plan = obj plan;
  actor = actor;
  created_at = now;
  updated_at = now;
}

-- `"plan-" + hashlib.sha256(f"{asset_id}\0{service_id}".encode()).hexdigest()[:20]`
abbrev pub plan_key : Host → String → String → String
plan_key h asset_id sid = append "plan-" (cut 20 (h.sha256 (append asset_id (append "\0" sid))))

-- The plan of a service whose compatibility release is staged.
abbrev pub created_plan : Host → String → AssetReport → String → String → ℕ → ℕ → PlanRow
created_plan h actor asset sid assessment version now =
    plan_row (plan_key h asset.asset.asset_id sid) asset.asset.asset_id sid "COMPATIBILITY_STAGED"
      (some version) none
      (dict (
        ("asset_id", str asset.asset.asset_id)
        ∷ ("service_id", str sid)
        ∷ ("source_path", str asset.asset.path)
        ∷ ("assessment_id", str assessment)
        ∷ ("initial_mode", str "compatibility")
        ∷ ("target_mode", str "strict")
        ∷ (
          "strict_gate",
          obj (
              dict (
                ("release_status", str "HEALTHY")
                ∷ ("maximum_fallback_rate", real "0.01")
                ∷ ("verification_required", bool true)
                ∷ [])),
        )
        ∷ []))
      actor now

-- The plan of a service whose strict release is staged, and of one that is verified.
abbrev pub promoted_plan : Python → String → PlanRow → Verified → ℕ → ℕ → PlanRow
promoted_plan py actor p v version now =
    plan_row p.plan_id p.asset_id p.service_id "STRICT_STAGED" p.compatibility_version
      (some version)
      (insert "fallback_rate" (real (py.float_text v.rate))
        (insert "verification_result" (str v.verification) v.plan))
      actor now

abbrev pub completed_plan : String → PlanRow → String → Fields → ℕ → PlanRow
completed_plan actor p verification plan now =
    plan_row p.plan_id p.asset_id p.service_id "VERIFIED" p.compatibility_version p.strict_version
      (insert "strict_verification" (str verification) plan) actor now

-- The text that `WHERE service_id = ?` compares with: NULL matches nothing, and a list or a `dict`
-- cannot be bound.
abbrev pub bound_id : Python → Json → Result (Option String)
bound_id py null = ok none
bound_id py (str s) = ok (some s)
bound_id py (arr _) = err (type_error "binding")
bound_id py (obj _) = err (type_error "binding")
bound_id py v = ok (some (py.column_text v))

abbrev pub has_state : Option String → Store → Bool
has_state none st = false
has_state (some sid) st = is_some (get_state sid st)

-- `len(service_id)` in `transition`; `None` is refused before that.
abbrev pub text_id : Json → Result String
text_id (str s) = ok s
text_id _ = err (type_error "service_id")

-- `0 <= fallback_rate <= 1` on what the request has, if it has anything
unfoldable pub rate_given : Python → Json → Result (Option ℤ)
rate_given py null = ok none
rate_given py (str s) = err (type_error "fallback_rate")
rate_given py (arr _) = err (type_error "fallback_rate")
rate_given py (obj _) = err (type_error "fallback_rate")
rate_given py v = elim (py.as_float v) [ ok f ↦ ok (some (as_rate f)) | err e ↦ err e ]

-- `str(body.get("action", "create")).lower()`
abbrev pub action_of : Host → Fields → String
action_of h body = lower (text h.python_str (get_or "action" (str "create") body))

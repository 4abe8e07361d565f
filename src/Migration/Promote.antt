-- ===== src/Migration/Promote.antt =====
-- `migrate` of manager/scan_orchestrator.py with the actions `verify` and `complete`.
use pq_migration_gateway.Prelude.{
  ℕ, String, Bool, true, false, not, ◌||◌, List, [], ◌∷◌, Option, none, some, ◌==◌,
}
use pq_migration_gateway.Prelude.Int.{ℤ, pos, negsuc, leb_ℤ}
use pq_migration_gateway.Prelude.Text.{strip}
use pq_migration_gateway.Result.{Result, ok, err, value_error, type_error, require, ◌>>=◌, ◌>>◌}
use pq_migration_gateway.Json.{
  Json, Fields, bool, real, str, obj, get, get_or, insert, update, dict,
}
use pq_migration_gateway.Store.Tables.{healthy, compatibility, strict, PlanRow, Store}
use pq_migration_gateway.Store.Releases.{get_version, same_status}
use pq_migration_gateway.Store.Inventory.{text}
use pq_migration_gateway.StateMachine.{get_state, source_of}
use pq_migration_gateway.World.{Host}
use pq_migration_gateway.Migration.Service.{
  as_section, change_section, strict_groups, tls_mode, rollout,
}
use pq_migration_gateway.Migration.Assess.{Float, nan, infinite, finite, Python, is_state}

-- `int(v)` of a column
abbrev pub int_column : Option ℕ → Result ℕ
int_column none = err (type_error "int")
int_column (some v) = ok v

-- `a < b`, which is false for a NaN
abbrev pub float_lt : Float → Float → Bool
float_lt nan b = false
float_lt a nan = false
float_lt (infinite false) (infinite false) = false
float_lt (infinite false) b = true
float_lt (infinite true) b = false
float_lt (finite a) (infinite up) = up
float_lt (finite a) (finite b) = not (leb_ℤ b a)

-- `fallback_rate < 0 or fallback_rate > maximum`
unfoldable pub rate_refused : Float → Float → Bool
rate_refused rate maximum = float_lt rate (finite (pos 0)) || float_lt maximum rate

-- The rate that is handed to `transition`. A NaN or an infinity is no rate between 0 and 1, and stands
-- for -1 there, which is refused alike.
abbrev pub as_rate : Float → ℤ
as_rate nan = negsuc 0
as_rate (infinite up) = negsuc 0
as_rate (finite r) = r

-- `body.get("passed") is not True`
abbrev pub is_true : Json → Bool
is_true (bool true) = true
is_true _ = false

-- What the checks of `verify` give: the verification result, the rate, and the plan's document.
pub record Verified : Type 0 where
  pub verification : String
  pub rate : Float
  pub plan : Fields

-- `not record.get("strict_version")`; no version is 0.
abbrev pub strict_column : Option ℕ → Result ℕ
strict_column none = err (value_error "strict release has not been staged")
strict_column (some ℕ.zero) = err (value_error "strict release has not been staged")
strict_column (some v) = ok v

module _ (h : Host) (py : Python) where
  -- `float(record["plan"].get("strict_gate", {}).get("maximum_fallback_rate", 0.01))`
  unfoldable pub maximum_rate : Fields → Result Float
  unfolding get_or
  maximum_rate plan = do
    gate ← as_section (get_or "strict_gate" (obj Fields.end) plan)
    py.as_float (get_or "maximum_fallback_rate" (real "0.01") gate)

  -- The checks of `verify`, in the order of the code.
  unfoldable pub check_verify : PlanRow → Fields → Store → Result Verified
  unfolding maximum_rate rate_refused strip get get_or
  check_verify record_ body st = do
    require (is_state compatibility (source_of (get_state record_.service_id st)))
        (value_error "strict promotion requires the service to be in COMPATIBILITY state")
    version ← int_column record_.compatibility_version
    release ← get_version version st
    require (same_status release.row.status healthy)
        (value_error "compatibility release must be HEALTHY before strict promotion")
    require (is_true (get "passed" body)) (value_error "strict promotion requires passed=true")
    let verification = strip (text h.python_str (get_or "verification_result" (str "") body))
    require (not (verification == "")) (value_error "strict promotion requires verification_result")
    rate ← py.as_float (get_or "fallback_rate" (real "1.0") body)
    plan ← as_section record_.plan
    maximum ← maximum_rate plan
    require (not (rate_refused rate maximum)) (value_error "fallback_rate")
    ok (record { verification = verification; rate = rate; plan = plan })

-- The checks of `complete`, with the version of the strict release.
unfoldable pub check_complete : PlanRow → Store → Result ℕ
check_complete record_ st = do
  require (is_state strict (source_of (get_state record_.service_id st)))
      (value_error "migration completion requires the service to be in STRICT state")
  version ← strict_column record_.strict_version
  release ← get_version version st
  require (same_status release.row.status healthy)
      (value_error "strict release must be HEALTHY before migration completion")
  ok version

-- The resource of a service under the strict mode.
unfoldable pub strict_service : Json → Result Fields
unfolding change_section
strict_service spec = do
  fields ← as_section spec
  downstream ←
      change_section "downstream_tls" (λ s. update s (tls_mode "strict" strict_groups)) fields
  ok (insert "rollout" (rollout false) downstream)

-- The policy that goes with a mode.
abbrev pub mode_policy : String → String → List String → Bool → Json
mode_policy sid mode names fallback = obj (
    dict (
      ("service_id", str sid)
      ∷ ("downstream_tls", obj (tls_mode mode names))
      ∷ ("rollout", rollout fallback)
      ∷ []))

-- ===== src/Migration/Run.antt =====
-- `migrate` of manager/scan_orchestrator.py.
use pq_migration_gateway.Prelude.{
  ℕ, String, true, false, not, List, [], ◌∷◌, none, some, ◌==◌, append, if◌then◌else◌,
}
use pq_migration_gateway.Result.{Result, ok, value_error, require}
use pq_migration_gateway.Exec.{Exec, raise, query, ◌>>=◌, ◌>>◌}
use pq_migration_gateway.Json.{Json, Fields, str, obj, get, get_or, truthy, or_else}
use pq_migration_gateway.Store.Tables.{
  discovered, assessed, planned, compatibility, strict, verified, PlanRow, Store,
}
use pq_migration_gateway.Store.Resources.{
  Kind, upsert_resource, get_resource, get_setting, set_setting,
}
use pq_migration_gateway.Store.Scans.{get_migration_plan, upsert_migration_plan}
use pq_migration_gateway.Store.Inventory.{text}
use pq_migration_gateway.Discovery.Lists.{AssetReport, get_crypto_asset}
use pq_migration_gateway.World.{World, Host}
use pq_migration_gateway.Agent.{on_store}
use pq_migration_gateway.Control.{stage_resources}
use pq_migration_gateway.Migration.Service.{
  migration_defaults, as_section, compatibility_service, hybrid_groups, strict_groups,
}
use pq_migration_gateway.Migration.Assess.{Python, assess, advance}
use pq_migration_gateway.Migration.Plans.{
  change, version_in, created_plan, promoted_plan, completed_plan, bound_id, has_state, text_id,
  rate_given, action_of,
}
use pq_migration_gateway.Migration.Promote.{
  Verified, check_verify, check_complete, strict_service, mode_policy, as_rate,
}

module _ (h : Host) (py : Python) (environment : String) (actor : String) where
  -- The service and its policy, and a release of all resources.
  unfoldable pub stage_mode : String → Fields → Json → Exec World ℕ
  unfolding on_store
  stage_mode sid spec policy = do
    on_store (λ now st. ok (upsert_resource Kind.service sid (obj spec) actor none now st))
    on_store (λ now st. ok (upsert_resource Kind.policy sid policy actor none now st))
    manifest ← stage_resources h environment actor none none
    query (λ _. version_in manifest)

  -- `if not self.store.get_setting("service_defaults", {})`
  abbrev default_settings : ℕ → Store → Result Store
  default_settings now st =
      if truthy (get_setting "service_defaults" (obj Fields.end) st)
      then ok st
      else ok (set_setting "service_defaults" migration_defaults actor now st)

  -- `action == "create"` behind the assessment
  unfoldable pub create_plan : AssetReport → String → Fields → String → Exec World (Unit {0})
  unfolding on_store
  create_plan asset sid service assessment = do
    let asset_id = asset.asset.asset_id
    advance sid
        (change actor (append "Asset " (append asset_id " discovered and assessed")) none none none)
        (discovered ∷ assessed ∷ planned ∷ [])
    on_store (λ now st. ok (upsert_resource Kind.service sid (obj service) actor none now st))
    on_store (λ now st. ok (
        upsert_resource Kind.policy sid (mode_policy sid "compatibility" hybrid_groups true) actor
          none now st))
    on_store default_settings
    manifest ← stage_resources h environment actor none none
    version ← query (λ _. version_in manifest)
    advance sid
        (change actor "Compatibility release staged from scan finding" (some version) none none)
        (compatibility ∷ [])
    on_store
        (λ now st. upsert_migration_plan (created_plan h actor asset sid assessment version now) st)

  unfoldable pub migrate_create : AssetReport → Fields → Exec World (Unit {0})
  unfolding create_plan
  migrate_create asset body = do
    given ← query (λ _. as_section (get_or "service" (obj Fields.end) body))
    service ← query (λ _. compatibility_service h.python_str given)
    sql ← query (λ _. bound_id py (get "id" service))
    known ← query (λ w. ok (has_state sql w.store))
    query (λ _.
        require (not known)
          (value_error "migration service already has state; use its existing plan"))
    assessment ← assess h py asset.asset.asset_id actor
    sid ← query (λ _. text_id (get "id" service))
    create_plan asset sid service assessment

  -- `action == "verify"` behind the checks
  unfoldable pub promote : PlanRow → Verified → Exec World (Unit {0})
  unfolding stage_mode on_store
  promote p v = do
    row ← query (λ w. get_resource Kind.service p.service_id w.store)
    spec ← query (λ _. strict_service row.spec)
    version ← stage_mode p.service_id spec (mode_policy p.service_id "strict" strict_groups false)
    advance p.service_id
        (change actor "Compatibility verification passed; strict PQC staged" (some version)
          (some v.verification) (some (as_rate v.rate)))
        (strict ∷ [])
    on_store (λ now st. upsert_migration_plan (promoted_plan py actor p v version now) st)

  -- `action == "complete"` behind the checks
  unfoldable pub complete : PlanRow → Fields → ℕ → Exec World (Unit {0})
  unfolding on_store
  complete p body version = do
    let verification =
        text h.python_str (get_or "verification_result" (str "strict release healthy") body)
    rate ← query (λ _. rate_given py (get "fallback_rate" body))
    advance p.service_id
        (change actor "Strict PQC release verified" (some version) (some verification) rate)
        (verified ∷ [])
    plan ← query (λ _. as_section p.plan)
    on_store (λ now st. upsert_migration_plan (completed_plan actor p verification plan now) st)

  -- The plan of the request, or the newest one of the asset.
  abbrev first_plan : List PlanRow → String
  first_plan [] = ""
  first_plan (p ∷ _) = p.plan_id

  abbrev pub requested_plan : AssetReport → Fields → String
  requested_plan asset body =
      text h.python_str (or_else (get "plan_id" body) (str (first_plan asset.migration_plans)))

  unfoldable pub migrate_plan : String → String → AssetReport → Fields → Exec World (Unit {0})
  unfolding promote complete
  migrate_plan action asset_id asset body = do
    query (λ _.
        require (not (requested_plan asset body == "")) (value_error "asset has no migration plan"))
    p ← query (λ w. get_migration_plan (requested_plan asset body) w.store)
    query (λ _.
        require (p.asset_id == asset_id)
          (value_error "migration plan does not belong to the asset"))
    if action == "verify"
        then (do v ← query (λ w. check_verify h py p body w.store); promote p v)
        else (if action == "complete"
            then (do version ← query (λ w. check_complete p w.store); complete p body version)
            else raise (value_error "migration action must be create, verify, or complete"))

  unfoldable pub migrate : String → Fields → Exec World (Unit {0})
  unfolding migrate_create migrate_plan
  migrate asset_id body = do
    asset ← query (λ w. get_crypto_asset asset_id 1000 w.store)
    if action_of h body == "create"
        then migrate_create asset body
        else migrate_plan (action_of h body) asset_id asset body

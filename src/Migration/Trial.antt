-- ===== src/Migration/Trial.antt =====
-- The action `create` of `migrate` of manager/scan_orchestrator.py on a database that has an asset only.
use pq_migration_gateway.Prelude.{is_some, ◌≡◌, refl, true, false, [], ◌∷◌, ◌==◌}
use pq_migration_gateway.Prelude.Int.{pos}
use pq_migration_gateway.Prelude.Text.{lower}
use pq_migration_gateway.Result.{Error, Result, ok, err}
use pq_migration_gateway.Json.{Fields, num, str, obj, dict, get, get_or, find, insert, update}
use pq_migration_gateway.Store.Rows.{find_row}
use pq_migration_gateway.Store.Tables.{empty_store}
use pq_migration_gateway.StateMachine.{get_state}
use pq_migration_gateway.World.{World}
use pq_migration_gateway.Discovery.Lists.{get_crypto_asset}
use pq_migration_gateway.Migration.Service.{
  as_section, check_service, set_default, change_section, compatibility_service,
}
use pq_migration_gateway.Migration.Plans.{action_of}
use pq_migration_gateway.Migration.Run.{migrate}
use pq_migration_gateway.Migration.Leaves.{Leaves}
use pq_migration_gateway.Migration.Created.{Created, migrate-Created}
use pq_migration_gateway.Agent.Keeps.{is_err}
use pq_migration_gateway.Migration.Hybrid.{IsHybrid, compatibility_service-IsHybrid}
use pq_migration_gateway.Migration.Tests.{host, python, asset, world}
use pq_migration_gateway.Migration.Once.{migrate-known, migrate-twice}
use pq_migration_gateway.Config.Fields.{
  safe_name, safe_token, timeout, optional_string, port, timeout_string, mode_of, client_auth_of,
  verify_of, provider_of, groups, key_fields, identity,
}
use pq_migration_gateway.Config.Service.{
  policy_of, listen_of, downstream_fields, downstream_of, upstream_of, timeouts_of, percent,
  rollout_of, audit_of,
}
use pq_migration_gateway.Config.Normalize.{
  normalize_raw, services_of, is_version3, is_schema4, service_list, normalize_v4, normalize_config,
}
use pq_migration_gateway.Gateway.Http.{urlsplit, validate_http}
use pq_migration_gateway.Gateway.Registry.{get_adapter, default_registry}
use pq_migration_gateway.Gateway.Render.{render}
use pq_migration_gateway.Policy.{compile_policies}
use pq_migration_gateway.Control.{manifest_fields, sign, stage_resources}
use pq_migration_gateway.Control.Validate.{validate_document}
use pq_migration_gateway.Store.Rows.{update_rows, upsert_row}
use pq_migration_gateway.Store.Resources.{sync_canonical_resources}
use pq_migration_gateway.Store.Documents.{document_from_resources}
use pq_migration_gateway.Store.Releases.{
  status_of, write_version, create_version, update_draft_artifacts, write_status, set_known_status,
  set_status,
}
use pq_migration_gateway.Store.Scans.{create_asset_assessment, upsert_migration_plan}
use pq_migration_gateway.StateMachine.{state_of, write_transition, enter, transition}
use pq_migration_gateway.Exec.{◌>>=◌, catch}
use pq_migration_gateway.Prelude.Text.{is_blank}
use pq_migration_gateway.Migration.Assess.{assess, advance}

abbrev service : Fields
service = dict (
    ("id", str "web")
    ∷ ("adapter", str "http")
    ∷ ("listen", obj (dict (("port", num (pos 8443)) ∷ [])))
    ∷ ("upstream", obj (dict (("address", str "http://app:8080") ∷ [])))
    ∷ [])

abbrev made : Result Fields
made = compatibility_service (λ v. "") service

abbrev fields_of : Result Fields → Fields
fields_of (ok fs) = fs
fields_of (err e) = Fields.end

made_ok : made ≡ ok (fields_of made)
unfolding compatibility_service check_service get_or find change_section insert update set_default
    get
made_ok = refl

compatibility_service-IsHybrid_example : IsHybrid service (fields_of made)
compatibility_service-IsHybrid_example =
    compatibility_service-IsHybrid (λ v. "") service (fields_of made) made_ok

abbrev create : Fields
create = dict (("action", str "create") ∷ ("service", obj service) ∷ [])

abbrev new_world : World
new_world = record world { store = record empty_store { crypto_assets = asset ∷ [] } }

is_create : (action_of host create == "create") ≡ true
unfolding get_or find lower
is_create = refl

migrate-Created_example :
    Leaves
      (Created host python "prod" "ops" "asset-1" create new_world.store)
      (migrate host python "prod" "ops" "asset-1" create new_world)
migrate-Created_example =
    migrate-Created host python "prod" "ops" "asset-1" create new_world is_create

abbrev pub created : Result (Unit {0}) × World
created = migrate host python "prod" "ops" "asset-1" create new_world

create_returns : is_err created.0 ≡ false
unfolding safe_name safe_token timeout optional_string port timeout_string mode_of client_auth_of
    verify_of provider_of groups key_fields identity policy_of listen_of downstream_fields
    downstream_of upstream_of timeouts_of percent rollout_of audit_of normalize_raw services_of
    is_version3 is_schema4 service_list normalize_v4 normalize_config urlsplit validate_http
    get_adapter default_registry render compile_policies manifest_fields sign stage_resources
    validate_document find_row update_rows upsert_row sync_canonical_resources
    document_from_resources status_of write_version create_version update_draft_artifacts
    write_status set_known_status set_status create_asset_assessment upsert_migration_plan state_of
    get_state write_transition enter transition get_crypto_asset ◌>>=◌ catch update is_blank
    compatibility_service assess advance migrate
create_returns = refl

pub created-returned : (p : Result (Unit {0}) × World) → is_err p.0 ≡ false → p ≡ (ok tt, p.1)
created-returned (ok tt, w) e = refl
created-returned (err x, w) e = cc

migrate-twice_example :
    (e : Error) × (migrate host python "prod" "dev" "asset-2" create created.1 ≡ (err e, created.1))
migrate-twice_example =
    migrate-twice host python "prod" "ops" "asset-1" "asset-2" "dev" create new_world created.1
      is_create (created-returned created create_returns)

-- The release of a service without an upstream address is not staged: `create` raises, and leaves the
-- service with a state and the asset without a plan.
abbrev unreachable : Fields
unreachable = insert "upstream" (obj Fields.end) service

abbrev request : Fields
request = dict (("action", str "create") ∷ ("service", obj unreachable) ∷ [])

abbrev stuck : Result (Unit {0}) × World
stuck = migrate host python "prod" "ops" "asset-1" request new_world

stuck_end :
    (is_err stuck.0 ≡ true)
    × (stuck.1.store.migration_plans ≡ [])
    × (is_some (get_state "web" stuck.1.store) ≡ true)
unfolding safe_name safe_token timeout optional_string port timeout_string mode_of client_auth_of
    verify_of provider_of groups key_fields identity policy_of listen_of downstream_fields
    downstream_of upstream_of timeouts_of percent rollout_of audit_of normalize_raw services_of
    is_version3 is_schema4 service_list normalize_v4 normalize_config urlsplit validate_http
    get_adapter default_registry render compile_policies manifest_fields sign stage_resources
    validate_document find_row update_rows upsert_row sync_canonical_resources
    document_from_resources status_of write_version create_version update_draft_artifacts
    write_status set_known_status set_status create_asset_assessment upsert_migration_plan state_of
    get_state write_transition enter transition get_crypto_asset ◌>>=◌ catch update is_blank
    compatibility_service assess advance migrate insert
stuck_end = (refl, refl, refl)

unreachable_made :
    compatibility_service host.python_str unreachable
    ≡ ok (fields_of (compatibility_service host.python_str unreachable))
unfolding compatibility_service check_service get_or find change_section insert update set_default
    get
unreachable_made = refl

named_web : get "id" (fields_of (compatibility_service host.python_str unreachable)) ≡ str "web"
unfolding compatibility_service check_service get_or find change_section insert update set_default
    get
named_web = refl

requested : as_section (get_or "service" (obj Fields.end) request) ≡ ok unreachable
unfolding get_or find
requested = refl

is_request : (action_of host request == "create") ≡ true
unfolding get_or find lower
is_request = refl

-- The same request is refused from then on.
migrate-known_example :
    (e : Error) × (migrate host python "prod" "ops" "asset-1" request stuck.1 ≡ (err e, stuck.1))
migrate-known_example =
    migrate-known host python "prod" "ops" "asset-1" request unreachable
      (fields_of (compatibility_service host.python_str unreachable)) "web" stuck.1 is_request
      requested unreachable_made named_web (stuck_end.2)

-- ===== src/Migration/Promotion.antt =====
-- The action `verify` of `migrate` of manager/scan_orchestrator.py on the database that `create` has
-- left, once its release is HEALTHY.
use pq_migration_gateway.Prelude.{◌≡◌, refl, true, false, [], ◌∷◌, map, ◌==◌}
use pq_migration_gateway.Prelude.Text.{lower}
use pq_migration_gateway.Result.{Result, ok}
use pq_migration_gateway.Json.{Fields, bool, str, real, dict, get_or, find, update}
use pq_migration_gateway.Exec.Ends.{Unless}
use pq_migration_gateway.Store.Tables.{healthy, VersionRow}
use pq_migration_gateway.World.{World}
use pq_migration_gateway.Discovery.Lists.{AssetReport, get_crypto_asset}
use pq_migration_gateway.Agent.Keeps.{is_err}
use pq_migration_gateway.Migration.Plans.{action_of}
use pq_migration_gateway.Migration.Run.{migrate}
use pq_migration_gateway.Migration.Gate.{Gate, migrate-Gate}
use pq_migration_gateway.Migration.Settled.{Done, migrate-Done}
use pq_migration_gateway.Migration.Tests.{host, python}
use pq_migration_gateway.Migration.Trial.{created, created-returned}
use pq_migration_gateway.Config.Fields.{
  safe_name, safe_token, timeout, optional_string, port, timeout_string, mode_of, client_auth_of,
  client_auth_name, verify_of, verify_name, provider_of, provider_name, groups, key_fields,
  identity,
}
use pq_migration_gateway.Config.Service.{
  policy_of, listen_of, downstream_fields, downstream_of, upstream_of, timeouts_of, percent,
  rollout_of, audit_of, listen_dict, downstream_dict, upstream_dict, timeouts_dict, service_fields,
}
use pq_migration_gateway.Config.Normalize.{
  normalize_raw, services_of, is_version3, is_schema4, service_list, normalize_v4, normalize_config,
}
use pq_migration_gateway.Gateway.Http.{urlsplit, validate_http}
use pq_migration_gateway.Gateway.Registry.{get_adapter, default_registry}
use pq_migration_gateway.Gateway.Render.{render}
use pq_migration_gateway.Policy.{compile_policies}
use pq_migration_gateway.Control.{manifest_fields, sign, stage_resources}
use pq_migration_gateway.Control.Validate.{validate_document}
use pq_migration_gateway.Store.Rows.{find_row, update_rows, upsert_row}
use pq_migration_gateway.Store.Resources.{get_resource, sync_canonical_resources}
use pq_migration_gateway.Store.Documents.{document_from_resources}
use pq_migration_gateway.Store.Releases.{
  status_of, write_version, create_version, update_draft_artifacts, write_status, set_known_status,
  set_status, get_version,
}
use pq_migration_gateway.Store.Scans.{
  create_asset_assessment, find_plan, get_migration_plan, upsert_migration_plan,
}
use pq_migration_gateway.StateMachine.{state_of, get_state, write_transition, enter, transition}
use pq_migration_gateway.Exec.{◌>>=◌ as bind, catch}
use pq_migration_gateway.Prelude.Text.{is_blank}
use pq_migration_gateway.Report.Texts.{cut}
use pq_migration_gateway.Migration.Service.{compatibility_service}
use pq_migration_gateway.Migration.Assess.{assess, advance}
use pq_migration_gateway.Migration.Promote.{check_verify, strict_service}

abbrev as_healthy : VersionRow → VersionRow
as_healthy v = record v { status = healthy }

abbrev ready : World
ready = record created.1 {
  store = record created.1.store {
    config_versions = map as_healthy created.1.store.config_versions;
  };
}

-- The newest plan of the asset is meant.
abbrev promotion : Fields
promotion = dict (
    ("action", str "VERIFY")
    ∷ ("passed", bool true)
    ∷ ("verification_result", str " handshake ok ")
    ∷ ("fallback_rate", real "0.0")
    ∷ [])

abbrev promoted : Result (Unit {0}) × World
promoted = migrate host python "prod" "ops" "asset-1" promotion ready

verify_returns : is_err promoted.0 ≡ false
unfolding safe_name safe_token timeout optional_string port timeout_string mode_of client_auth_of
    client_auth_name verify_of verify_name provider_of provider_name groups key_fields identity
    policy_of listen_of downstream_fields downstream_of upstream_of timeouts_of percent rollout_of
    audit_of listen_dict downstream_dict upstream_dict timeouts_dict service_fields normalize_raw
    services_of is_version3 is_schema4 service_list normalize_v4 normalize_config urlsplit
    validate_http get_adapter default_registry render compile_policies manifest_fields sign
    stage_resources validate_document find_row update_rows upsert_row get_resource
    sync_canonical_resources document_from_resources status_of write_version create_version
    update_draft_artifacts write_status set_known_status set_status get_version
    create_asset_assessment find_plan get_migration_plan upsert_migration_plan state_of get_state
    write_transition enter transition get_crypto_asset bind catch update is_blank cut
    compatibility_service assess advance check_verify strict_service migrate
verify_returns = refl

is_verify : (action_of host promotion == "create") ≡ false
unfolding get_or find lower
is_verify = refl

migrate-Gate_example :
    Unless
      ((found : AssetReport) × (get_crypto_asset "asset-1" 1000 ready.store ≡ ok found)
        × Gate host python "prod" "ops" "asset-1" found promotion
            (action_of host promotion)
            ready.store)
      ready
      (migrate host python "prod" "ops" "asset-1" promotion ready)
migrate-Gate_example = migrate-Gate host python "prod" "ops" "asset-1" promotion ready is_verify

migrate-Done_example :
    (found : AssetReport) × (get_crypto_asset "asset-1" 1000 ready.store ≡ ok found)
    × Done host python "prod" "ops" "asset-1" found promotion ready.store promoted.1.store
migrate-Done_example =
    migrate-Done host python "prod" "ops" "asset-1" promotion ready promoted.1 is_verify
      (created-returned promoted verify_returns)

-- ===== src/Agent/Tests.antt =====
-- A gateway that activates the release of version 1, on hosts that work and that fail to reload.
use pq_migration_gateway.Prelude.{
  ◌≡◌, refl, String, true, List, [], ◌∷◌, Option, none, some, ◌==◌, if◌then◌else◌,
}
use pq_migration_gateway.Result.{Error, ok, err, apply_error}
use pq_migration_gateway.Exec.{◌>>=◌, catch}
use pq_migration_gateway.Json.{Fields, str, obj, dict, find, get_or}
use pq_migration_gateway.Store.Rows.{find_row, update_rows}
use pq_migration_gateway.Store.Tables.{Store}
use pq_migration_gateway.Store.Releases.{
  set_status, set_known_status, find_version, status_of, write_version, write_status,
}
use pq_migration_gateway.Store.Releases.Tests.{is_staged, is_healthy}
use pq_migration_gateway.Store.Metrics.{
  heartbeat_agent, write_heartbeat, increment_metric, set_known_metric,
}
use pq_migration_gateway.World.{missing, holds, Observed, Command, nginx_reload, World, Host}
use pq_migration_gateway.Agent.{
  GatewayAgent, on_store, command, observed, heartbeat, record_failure, count_reload,
  count_rollback, restore, rollback, manifest_signature, verify_release, check_release,
  test_candidate, activate, check_health, finish, switch_from, switch, apply,
}
use pq_migration_gateway.Agent.Keeps.{is_err}
use pq_migration_gateway.Agent.Verified.{IsVerified}
use pq_migration_gateway.Agent.Healthy.{IsApplied, apply-IsApplied}
use pq_migration_gateway.Agent.Failure.{apply-restores}
use pq_migration_gateway.Agent.Reapply.{IsStuck, apply-again}

abbrev host : Host
host = record {
  outcome = λ log. none;
  active_connections = λ log. none;
  sha256 = λ s. s;
  digest = λ m. "digest";
  hmac = λ key m. key;
  python_str = λ v. "";
}

-- The new configuration does not load.
abbrev reload_fails : List Command → Option Error
reload_fails (nginx_reload (some conf) ∷ log) =
    if conf == "new" then some (apply_error "reload") else none
reload_fails _ = none

abbrev failing_host : Host
failing_host = record host { outcome = reload_fails }

abbrev gateway : GatewayAgent
gateway = record {
  agent_id = "gw";
  health_command = "curl";
  signing_key = "";
  metadata = obj Fields.end;
}

abbrev world : Store → World
world st = record {
  store = st;
  releases = λ v. record {
    exists = true;
    services_json = none;
    manifest = holds (obj (dict (("rendered_checksum", str "new") ∷ [])));
    nginx_conf = some "new";
  };
  desired = missing;
  observed = missing;
  active = some "old";
  previous = none;
  temporary = none;
  commands = [];
  now = 9;
}

abbrev activated : Observed
activated = record {
  agent_id = "gw";
  version = some 1;
  failed_version = none;
  status = "HEALTHY";
  error = none;
  checksum = some "new";
  observed_at = 9;
}

abbrev signing_gateway : GatewayAgent
signing_gateway = record gateway { signing_key = "key" }

-- The release is signed.
abbrev signed_world : World
signed_world = record (world is_staged) {
  releases = λ v. record {
    exists = true;
    services_json = none;
    manifest =
        holds (
          obj
            (dict (("rendered_checksum", str "new") ∷ ("signature", str "hmac-sha256:key") ∷ [])));
    nginx_conf = some "new";
  };
}

activation :
    apply host signing_gateway 1 signed_world
    ≡ (ok activated, (apply host signing_gateway 1 signed_world).1)
unfolding apply observed check_release test_candidate switch switch_from activate check_health
    finish verify_release command on_store heartbeat count_reload ◌>>=◌ catch heartbeat_agent
    write_heartbeat set_status set_known_status find_version find_row write_version write_status
    update_rows status_of find increment_metric set_known_metric get_or manifest_signature
activation = refl

apply-IsApplied_example :
    (conf actual : String) × IsVerified host signing_gateway (signed_world.releases 1) conf actual
    × IsApplied signing_gateway 1 conf actual activated
        (apply host signing_gateway 1 signed_world).1
apply-IsApplied_example = apply-IsApplied host signing_gateway 1 signed_world activation

failed_reload :
    apply failing_host gateway 1 (world is_staged)
    ≡ (err (apply_error "reload"), (apply failing_host gateway 1 (world is_staged)).1)
unfolding apply observed check_release test_candidate switch switch_from activate check_health
    finish verify_release command on_store heartbeat count_reload ◌>>=◌ catch heartbeat_agent
    write_heartbeat set_status set_known_status find_version find_row write_version write_status
    update_rows status_of find increment_metric set_known_metric record_failure count_rollback
    restore rollback
failed_reload = refl

apply-restores_example : (apply failing_host gateway 1 (world is_staged)).1.active ≡ some "old"
unfolding find_version find_row write_version write_status update_rows
apply-restores_example =
    apply-restores failing_host gateway 1 (world is_staged) refl refl failed_reload

apply-again_example :
    (is_err (apply host gateway 1 (world is_healthy)).0 ≡ true)
    × IsStuck 1 "new" [] (apply host gateway 1 (world is_healthy)).1
unfolding find_version find_row write_version write_status update_rows verify_release find
apply-again_example = apply-again host gateway 1 (world is_healthy) (λ log. refl) refl refl

-- ===== src/Agent.antt =====
-- `GatewayAgent` of gateway/agent.py: `_observed`, `_heartbeat`, `_record_failure`, `_rollback` and
-- `apply`.
pub mod Keeps
pub mod Restore
pub mod Verified
pub mod Healthy
pub mod Ends
pub mod Restores
pub mod Failure
pub mod Reapply
pub mod Watch
mod Tests
use pq_migration_gateway.Prelude.{
  ℕ, String, append, Bool, true, false, List, [], ◌∷◌, Option, none, some, ◌==◌, if◌then◌else◌,
  is_some, eqb,
}
use pq_migration_gateway.Prelude.Text.{lower}
use pq_migration_gateway.Result.{
  Error, Result, ok, err, apply_error, key_error, value_error, type_error, attribute_error,
  os_error, no_previous, rollback_failed,
}
use pq_migration_gateway.Exec.{Exec, pure, raise, gets, query, modify, ◌>>=◌, ◌>>◌, catch}
use pq_migration_gateway.Json.{Json, Fields, str, obj, find, get_or}
use pq_migration_gateway.Store.Tables.{Store}
use pq_migration_gateway.Store.Releases.{set_status}
use pq_migration_gateway.Store.Metrics.{increment_metric, heartbeat_agent, Heartbeat, real, Labels}
use pq_migration_gateway.World.{
  File, missing, unreadable, holds, Observed, Release, Command, nginx_test, nginx_reload,
  health_check, World, Host,
}

pub record GatewayAgent : Type 0 where
  pub agent_id : String
  pub health_command : String
  pub signing_key : String
  pub metadata : Json

abbrev pub stored : World → Result Store → Result (Unit {0}) × World
stored w (ok st) = (ok tt, record w { store = st })
stored w (err e) = (err e, w)

-- A transaction on the database.
unfoldable pub on_store : (ℕ → Store → Result Store) → Exec World (Unit {0})
on_store f w = stored w (f w.now w.store)

abbrev pub answer : (World → Command) → World → Option Error → Result (Unit {0}) × World
answer c w none = (ok tt, record w { commands = c w ∷ w.commands })
answer c w (some e) = (err e, record w { commands = c w ∷ w.commands })

-- `_command`, for a command on the content of the file that it names
unfoldable pub command : Host → (World → Command) → Exec World (Unit {0})
command h c w = answer c w (h.outcome (c w ∷ w.commands))

-- `_health`
abbrev pub health : Host → GatewayAgent → Exec World (Unit {0})
health h g = if g.health_command == "" then pure tt else command h (λ w. health_check)

-- `_observed`, which is empty unless the file holds an object
unfoldable pub observed : World → Option Observed
observed w = elim w.observed [ holds o ↦ some o | _ ↦ none ]

abbrev pub observed_version : Option Observed → Option ℕ
observed_version none = none
observed_version (some o) = o.version

-- What `_heartbeat` reports.
abbrev pub beat :
    Host
    → GatewayAgent
    → Option ℕ
    → Option ℕ
    → String
    → String
    → Option String
    → Option Error
    → World
    → Heartbeat
beat h g current desired status health reload_result error w = record {
  current_version = current;
  desired_version = desired;
  status = status;
  health = health;
  reload_result = reload_result;
  active_connections = h.active_connections w.commands;
  fallback_rate = none;
  error = error;
  metadata = g.metadata;
}

-- `_heartbeat`
unfoldable pub heartbeat :
    Host
    → GatewayAgent
    → Option ℕ
    → Option ℕ
    → String
    → String
    → Option String
    → Option Error
    → Exec World (Unit {0})
unfolding on_store
heartbeat h g current desired status health reload_result error w =
    on_store
      (heartbeat_agent g.agent_id (beat h g current desired status health reload_result error w)) w

-- `_record_failure`
unfoldable pub record_failure : GatewayAgent → ℕ → String → Error → Exec World (Unit {0})
record_failure g version state error = do
  on_store (set_status version state g.agent_id (some error))
  on_store (λ now st. ok (
      increment_metric "gateway_config_apply_failures_total" (real 1)
        (("agent_id", g.agent_id) ∷ ("stage", lower state) ∷ [])
        "Configuration activation failures by data-plane stage." now st))

unfoldable pub count_reload : GatewayAgent → Exec World (Unit {0})
count_reload g = on_store (λ now st. ok (
    increment_metric "gateway_config_reload_total" (real 1) (("agent_id", g.agent_id) ∷ [])
      "Successful NGINX configuration reloads." now st))

unfoldable pub count_rollback : GatewayAgent → Exec World (Unit {0})
count_rollback g = on_store (λ now st. ok (
    increment_metric "gateway_config_rollback_total" (real 1) (("agent_id", g.agent_id) ∷ [])
      "Successful automatic configuration rollbacks." now st))

abbrev observe : (World → Observed) → Exec World (Unit {0})
observe f w = (ok tt, record w { observed = holds (f w) })

abbrev test_active : World → Command
test_active w = nginx_test w.active

abbrev pub reload_active : World → Command
reload_active w = nginx_reload w.active

-- `_rollback`, once there is a backup
restore : Host → GatewayAgent → ℕ → Option ℕ → Error → Exec World (Unit {0})
restore h g version previous_version reason = do
  modify (λ w. record w { active = w.previous })
  catch (command h test_active >> command h reload_active) (λ e. raise (rollback_failed reason e))
  count_rollback g
  on_store (set_status version "ROLLED_BACK" g.agent_id (some reason))
  observe (λ w. record {
    agent_id = g.agent_id;
    version = previous_version;
    failed_version = some version;
    status = "ROLLED_BACK";
    error = some reason;
    checksum = none;
    observed_at = w.now;
  })
  heartbeat h g previous_version (some version) "ROLLED_BACK" "healthy" (some "rollback-ok")
      (some reason)

unfoldable pub rollback : Host → GatewayAgent → ℕ → Option ℕ → Error → Exec World (Unit {0})
unfolding restore
rollback h g version previous_version reason w =
    if is_some w.previous
    then restore h g version previous_version reason w
    else (err (no_previous reason), w)

-- `{k: v for k, v in manifest.items() if k != "signature"}`
unfoldable pub unsigned : Fields → Fields
unsigned Fields.end = Fields.end
unsigned (Fields.field k v fs) =
    if k == "signature" then unsigned fs else Fields.field k v (unsigned fs)

-- `manifest_signature` of manager/control_plane.py
unfoldable pub manifest_signature : Host → Fields → String → String
unfolding unsigned
manifest_signature h manifest key = h.hmac key (obj (unsigned manifest))

-- `str(v) == expected`; only a text reads like a signature
abbrev pub reads : Json → String → Bool
reads (str s) expected = s == expected
reads _ expected = false

abbrev pub signature_matches : Host → GatewayAgent → Fields → Bool
signature_matches h g manifest =
    if g.signing_key == ""
    then true
    else reads (get_or "signature" (str "") manifest)
        (append "hmac-sha256:" (manifest_signature h manifest g.signing_key))

abbrev pub check_conf : Host → Option String → Fields → Result (String × String)
check_conf h none manifest = err (os_error "nginx.conf")
check_conf h (some conf) manifest = elim (find "rendered_checksum" manifest) [
  | none ↦ err (key_error "rendered_checksum")
  | some recorded ↦
      if reads recorded (h.sha256 conf)
      then ok (conf, h.sha256 conf)
      else err (apply_error "release checksum mismatch")
]

-- The first `try` of `apply`: the content of nginx.conf and its digest.
unfoldable pub verify_release : Host → GatewayAgent → Release → Result (String × String)
unfolding manifest_signature
verify_release h g release = elim release.manifest [
  | missing ↦ err (os_error "manifest.json")
  | unreadable ↦ err (value_error "manifest.json")
  | holds (obj manifest) ↦
      if signature_matches h g manifest
      then check_conf h release.nginx_conf manifest
      else err (apply_error "release signature mismatch")
  | holds _ ↦ err (type_error "manifest.json")
]

-- What `apply` does when the release is refused, and when `nginx -t` refuses it.
abbrev pub refuse : Host → GatewayAgent → ℕ → Option ℕ → String → Error → Exec World (Unit {0})
refuse h g version previous_version state e = do
  record_failure g version state e
  heartbeat h g previous_version (some version) state "degraded" none (some e)

unfoldable pub check_release : Host → GatewayAgent → ℕ → Option ℕ → Exec World (String × String)
unfolding verify_release
check_release h g version previous_version =
    catch (query (λ w. verify_release h g (w.releases version)))
      (λ e. refuse h g version previous_version "VALIDATION_FAILED" e >> raise e)

abbrev pub remove_temporary : Exec World (Unit {0})
remove_temporary = modify (λ w. record w { temporary = none })

unfoldable pub test_candidate : Host → GatewayAgent → ℕ → Option ℕ → String → Exec World (Unit {0})
test_candidate h g version previous_version conf = do
  modify (λ w. record w { temporary = some conf })
  catch (command h (λ w. nginx_test w.temporary)) (λ e.
      remove_temporary >> refuse h g version previous_version "NGINX_TEST_FAILED" e >> raise e)

-- A failure after the active configuration was replaced: back to the previous one, if there was one.
abbrev pub give_up :
    Host → GatewayAgent → ℕ → Option ℕ → Bool → Option ℕ → String → Error → Exec World (Unit {0})
give_up h g version previous_version had_previous current state e = do
  record_failure g version state e
  if had_previous
      then rollback h g version previous_version e
      else heartbeat h g current (some version) state "degraded" none (some e)
  raise e

unfoldable pub activate : Host → GatewayAgent → ℕ → Option ℕ → Bool → Exec World (Unit {0})
unfolding rollback
activate h g version previous_version had_previous =
    catch
      (do
        modify (λ w. record w { active = w.temporary; temporary = none })
        command h reload_active
        count_reload g
        on_store (set_status version "APPLIED" g.agent_id none))
      (give_up h g version previous_version had_previous none "RELOAD_FAILED")

unfoldable pub check_health : Host → GatewayAgent → ℕ → Option ℕ → Bool → Exec World (Unit {0})
unfolding rollback
check_health h g version previous_version had_previous w =
    let (r, w') =
      catch (health h g)
        (give_up h g version previous_version had_previous (some version) "HEALTH_CHECK_FAILED")
        w in
    (r, record w' { temporary = none })

-- What observed.json says after an activation.
abbrev pub healthy_now : GatewayAgent → ℕ → String → World → Observed
healthy_now g version actual w = record {
  agent_id = g.agent_id;
  version = some version;
  failed_version = none;
  status = "HEALTHY";
  error = none;
  checksum = some actual;
  observed_at = w.now;
}

unfoldable pub finish : Host → GatewayAgent → ℕ → String → Exec World Observed
finish h g version actual = do
  on_store (set_status version "HEALTHY" g.agent_id none)
  observe (healthy_now g version actual)
  heartbeat h g (some version) (some version) "HEALTHY" "healthy" (some "reload-ok") none
  gets (healthy_now g version actual)

-- The part of `apply` after the candidate was tested.
unfoldable pub switch_from :
    Host → GatewayAgent → ℕ → Option ℕ → String → Bool → Exec World Observed
unfolding activate check_health finish
switch_from h g version previous_version actual had_previous = do
  modify (λ w. if had_previous then record w { previous = w.active } else w)
  activate h g version previous_version had_previous
  check_health h g version previous_version had_previous
  finish h g version actual

unfoldable pub switch : Host → GatewayAgent → ℕ → Option ℕ → String → Exec World Observed
unfolding switch_from
switch h g version previous_version actual w =
    switch_from h g version previous_version actual (is_some w.active) w

-- `apply`
unfoldable pub apply : Host → GatewayAgent → ℕ → Exec World Observed
unfolding observed check_release test_candidate switch
apply h g version w =
    let previous_version = observed_version (observed w) in
    (do
      heartbeat h g previous_version (some version) "APPLYING" "unknown" none none
      (conf, actual) ← check_release h g version previous_version
      test_candidate h g version previous_version conf
      switch h g version previous_version actual)
      w

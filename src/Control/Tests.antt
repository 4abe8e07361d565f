-- ===== src/Control/Tests.antt =====
-- A document that is staged and one that is refused.
use pq_migration_gateway.Prelude.{
  ℕ, ◌≡◌, refl, String, true, false, Option, none, some, [], ◌∷◌, append, arith, subst, sym,
}
use pq_migration_gateway.Result.{Result, ok, err}
use pq_migration_gateway.Exec.{◌>>=◌, catch}
use pq_migration_gateway.Json.{Json, Fields, null, obj, get, get_or, find}
use pq_migration_gateway.Config.Normalize.{normalize_config}
use pq_migration_gateway.Config.Tests.{old_document, bank, bank_config, old_document-accepted}
use pq_migration_gateway.Store.Tables.{draft, empty_store}
use pq_migration_gateway.Prelude.Text.{lower}
use pq_migration_gateway.Gateway.Http.{
  validate_http, urlsplit, partition, is_scheme, scheme_code, split_netloc, has_credentials,
  before_at, render_http,
}
use pq_migration_gateway.Gateway.Registry.{
  find_adapter, get_adapter, default_registry, register_all, register, set_adapter,
}
use pq_migration_gateway.Gateway.Render.{
  Parts, render, render_services, render_service, render_parts, render_streams,
}
use pq_migration_gateway.Policy.{compile_policies}
use pq_migration_gateway.Store.Rows.{find_row, update_rows}
use pq_migration_gateway.Store.Resources.{sync_canonical_resources}
use pq_migration_gateway.Store.Releases.{
  create_version, write_version, update_draft_artifacts, set_status, set_known_status, find_version,
  write_status, status_of,
}
use pq_migration_gateway.World.{missing, World, Host}
use pq_migration_gateway.Agent.{GatewayAgent, on_store}
use pq_migration_gateway.Agent.Keeps.{is_err}
use pq_migration_gateway.Control.{stage_document, stage_version, publish}
use pq_migration_gateway.Control.Validate.{Validated, validate_document}
use pq_migration_gateway.Control.Refused.{IsRefused, stage_document-IsRefused}
use pq_migration_gateway.Control.Verified.{IsStaged, stage_document-IsStaged}

abbrev host : Host
host = record {
  outcome = λ log. none;
  active_connections = λ log. none;
  sha256 = λ s. s;
  digest = λ m. "digest";
  hmac = λ key m. key;
  python_str = λ v. "";
}

abbrev gateway : GatewayAgent
gateway = record {
  agent_id = "gw";
  health_command = "";
  signing_key = "key";
  metadata = obj Fields.end;
}

abbrev world : World
world = record {
  store = empty_store;
  releases =
      λ v. record { exists = false; services_json = none; manifest = missing; nginx_conf = none };
  desired = missing;
  observed = missing;
  active = none;
  previous = none;
  temporary = none;
  commands = [];
  now = 9;
}

stage_document-IsRefused_example :
    (is_err (stage_document host "" null "ops" none none world).0 ≡ true)
    × IsRefused 1 world (stage_document host "" null "ops" none none world).1
unfolding validate_document normalize_config
stage_document-IsRefused_example =
    stage_document-IsRefused host "" null "ops" none none world refl refl

-- What a computation has returned.
abbrev returned : Result Fields × World → Fields
returned (ok m, w) = m
returned (err e, w) = Fields.end

returned-of_ok : (p : Result Fields × World) → is_err p.0 ≡ false → p ≡ (ok (returned p), p.1)
returned-of_ok (ok m, w) e = refl
returned-of_ok (err x, w) e = cc

bank_parts : Parts
bank_parts = record {
  http_servers = render_http bank ∷ [];
  stream_formats = [];
  stream_servers = [];
}

bank_text : String
bank_text = append (render_parts "127.0.0.11" bank_parts) (render_streams "127.0.0.11" bank_parts)

bank_rendered : render (λ v. "") old_document ≡ ok bank_text
unfolding render render_services render_service get_adapter find_adapter default_registry
    register_all register set_adapter validate_http urlsplit partition is_scheme scheme_code
    split_netloc has_credentials before_at lower get get_or find bank_text bank_parts
bank_rendered = rw old_document-accepted refl

bank_validated : Validated
bank_validated = record {
  canonical = bank_config;
  rendered = bank_text;
  checksum = "digest";
  rendered_checksum = bank_text;
  policies = compile_policies (bank ∷ []);
}

bank_valid : validate_document host old_document ≡ ok bank_validated
unfolding validate_document bank_validated
bank_valid = rw (old_document-accepted, bank_rendered) refl

stage_version-valid :
    (h : Host) (version : ℕ) (source : Json) (operator : String) (from : Option ℕ) (key : String)
    (w : World) {v : Validated}
    → validate_document h source ≡ ok v
    → stage_version h version source operator from key w ≡ publish h version v operator from key w
unfolding stage_version ◌>>=◌ catch
stage_version-valid h version source operator from key w e = ground (arith, e)

abbrev created : World
created = record world {
  store = write_version "digest" old_document "" "ops" draft none 9 empty_store;
}

bank_published : is_err (publish host 1 bank_validated "ops" none "key" created).0 ≡ false
unfolding publish ◌>>=◌ on_store write_version update_draft_artifacts set_status set_known_status
    find_version find_row write_status update_rows status_of sync_canonical_resources bank_validated
    compile_policies
bank_published = refl

bank_returns : is_err (stage_document host "" old_document "ops" none (some "key") world).0 ≡ false
unfolding stage_document ◌>>=◌ create_version status_of
bank_returns =
    subst (λ p. is_err p.0 ≡ false)
      (sym (stage_version-valid host 1 old_document "ops" none "key" created bank_valid))
      bank_published

bank_staged : stage_document host "" old_document "ops" none (some "key") world ≡ (
  ok (returned (stage_document host "" old_document "ops" none (some "key") world)),
  (stage_document host "" old_document "ops" none (some "key") world).1,
)
bank_staged = returned-of_ok _ bank_returns

stage_document-IsStaged_example :
    IsStaged host gateway 1
      (returned (stage_document host "" old_document "ops" none (some "key") world))
      (stage_document host "" old_document "ops" none (some "key") world).1
stage_document-IsStaged_example =
    stage_document-IsStaged host gateway "" old_document "ops" none (some "key") world refl
      bank_staged

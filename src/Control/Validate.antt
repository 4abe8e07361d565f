-- ===== src/Control/Validate.antt =====
-- `validate_document` of manager/control_plane.py.
use pq_migration_gateway.Prelude.{String, List}
use pq_migration_gateway.Result.{Result, ok, ◌>>=◌}
use pq_migration_gateway.Json.{Json}
use pq_migration_gateway.Config.Normalize.{Canonical, normalize_config, document}
use pq_migration_gateway.Gateway.Render.{render}
use pq_migration_gateway.Policy.{compile_policies}
use pq_migration_gateway.World.{Host}

-- What `validate_document` returns.
pub record Validated : Type 0 where
  pub canonical : Canonical
  pub rendered : String
  pub checksum : String
  pub rendered_checksum : String
  pub policies : List (String × Json)

-- The renderer's result with the digests of the configuration.
unfoldable pub validate_document : Host → Json → Result Validated
validate_document h source = do
  canonical ← normalize_config source
  rendered ← render h.python_str source
  ok (record {
    canonical = canonical;
    rendered = rendered;
    checksum = h.digest (document canonical);
    rendered_checksum = h.sha256 rendered;
    policies = compile_policies canonical.services;
  })

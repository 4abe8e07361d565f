-- ===== src/Control.antt =====
-- manager/control_plane.py: `validate_document`, `stage_document`, `stage_rollback` and
-- `stage_resources`.
pub mod Validate
pub mod Verified
pub mod Refused
mod Tests
use pq_migration_gateway.Prelude.{
  ℕ, String, append, Bool, true, false, List, [], ◌∷◌, map, Option, none, some, ◌==◌, if◌then◌else◌,
  eqb,
}
use pq_migration_gateway.Prelude.Int.{pos}
use pq_migration_gateway.Result.{Error, Result, ok, err, file_exists}
use pq_migration_gateway.Exec.{Exec, pure, raise, query, modify, ◌>>=◌, ◌>>◌, catch}
use pq_migration_gateway.Json.{Json, Fields, num, str, arr, obj, array, dict, insert}
use pq_migration_gateway.Config.Service.{Service, service_fields}
use pq_migration_gateway.Config.Normalize.{document}
use pq_migration_gateway.Control.Validate.{Validated, validate_document}
use pq_migration_gateway.Store.Tables.{Store}
use pq_migration_gateway.Store.Releases.{
  create_version, update_draft_artifacts, set_status, get_version, version_json, VersionView,
}
use pq_migration_gateway.Store.Resources.{sync_canonical_resources}
use pq_migration_gateway.Store.Documents.{document_from_resources}
use pq_migration_gateway.World.{File, holds, Desired, Release, World, Host}
use pq_migration_gateway.Agent.{on_store, stored, manifest_signature}

-- `document_checksum`
abbrev pub document_checksum : Host → Json → String
document_checksum h source = h.digest source

-- A transaction with a result.
abbrev pub stored_with {ℓ} : {A : Type ℓ} → World → Result (A × Store) → Result A × World
stored_with w (ok (a, st)) = (ok a, record w { store = st })
stored_with w (err e) = (err e, w)

-- The manifest, without its signature.
unfoldable pub manifest_fields : ℕ → Validated → String → Option ℕ → ℕ → Fields
manifest_fields version v operator rollback_from now = dict (
    ("version", num (pos version))
    ∷ ("config_checksum", str v.checksum)
    ∷ ("rendered_checksum", str v.rendered_checksum)
    ∷ ("created_at", num (pos now))
    ∷ ("operator", str operator)
    ∷ ("rollback_from", version_json rollback_from)
    ∷ ("release_status", str "STAGED")
    ∷ ("policies", arr (array (map (λ p. p.1) v.policies)))
    ∷ [])

-- `if signing_key: manifest["signature"] = …`
unfoldable pub sign : Host → String → Fields → Fields
sign h signing_key manifest =
    if signing_key == ""
    then manifest
    else insert "signature"
        (str (append "hmac-sha256:" (manifest_signature h manifest signing_key))) manifest

abbrev pub write_release : ℕ → (Release → Release) → World → World
write_release version change w = record w {
  releases = λ u. if eqb u version then change (w.releases u) else w.releases u;
}

-- `release.mkdir(parents=True, exist_ok=False)`
abbrev pub make_release : ℕ → Exec World (Unit {0})
make_release version w =
    if (w.releases version).exists
    then (err (file_exists "releases"), w)
    else (ok tt, write_release version (λ r. record r { exists = true }) w)

abbrev pub service_specs : List Service → List (String × Json)
service_specs services = map (λ s. (s.id, obj (service_fields s))) services

-- The part of `stage_document` after the validation.
unfoldable pub publish : Host → ℕ → Validated → String → Option ℕ → String → Exec World Fields
publish h version v operator rollback_from signing_key w =
    let manifest = sign h signing_key (manifest_fields version v operator rollback_from w.now) in
    (do
      on_store (λ now. update_draft_artifacts version v.checksum (document v.canonical) v.rendered)
      on_store (set_status version "VALIDATED" operator none)
      make_release version
      modify (
          write_release version (λ r. record r {
            services_json = some (document v.canonical);
            nginx_conf = some v.rendered;
          }))
      modify (write_release version (λ r. record r { manifest = holds (obj manifest) }))
      on_store (λ now st. ok (
          sync_canonical_resources (obj v.canonical.defaults) (service_specs v.canonical.services)
            v.policies operator version now st))
      on_store (set_status version "STAGED" operator none)
      modify (λ x. record x {
        desired = holds (record {
          version = version;
          rendered_checksum = v.rendered_checksum;
          requested_at = x.now;
          operator = operator;
        });
      })
      pure manifest)
      w

-- `PQ_CONFIG_SIGNING_KEY` if no key is given
abbrev pub key_or : String → Option String → String
key_or environment none = environment
key_or environment (some key) = key

unfoldable pub stage_version : Host → ℕ → Json → String → Option ℕ → String → Exec World Fields
unfolding publish
stage_version h version source operator rollback_from signing_key = do
  v ←
      catch (query (λ w. validate_document h source))
        (λ e. on_store (set_status version "VALIDATION_FAILED" operator (some e)) >> raise e)
  publish h version v operator rollback_from signing_key

-- `stage_document`
unfoldable pub stage_document :
    Host → String → Json → String → Option ℕ → Option String → Exec World Fields
unfolding stage_version
stage_document h environment source operator rollback_from signing_key = do
  version ← (λ w. stored_with w (
      create_version (document_checksum h source) source "" operator "DRAFT" rollback_from w.now
        w.store))
  stage_version h version source operator rollback_from (key_or environment signing_key)

-- `stage_rollback`
unfoldable pub stage_rollback : Host → String → ℕ → String → Option String → Exec World Fields
unfolding stage_document
stage_rollback h environment source_version operator signing_key = do
  view ← query (λ w. get_version source_version w.store)
  stage_document h environment view.row.source operator (some source_version) signing_key

-- `stage_resources`
unfoldable pub stage_resources :
    Host → String → String → Option Json → Option String → Exec World Fields
unfolding stage_document
stage_resources h environment operator defaults signing_key = do
  source ← query (λ w. document_from_resources h.python_str defaults w.store)
  stage_document h environment source operator none signing_key

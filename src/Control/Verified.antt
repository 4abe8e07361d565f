-- ===== src/Control/Verified.antt =====
-- What manager/control_plane.py stages passes the checks of gateway/agent.py.
use pq_migration_gateway.Prelude.{
  ℕ, suc, ◌≡◌, refl, String, Option, none, some, arith, ap, ◌∙◌, sym, subst, ◌==◌, eq_refl,
  eqb_refl, inl, inr, Bool-cases, append,
}
use pq_migration_gateway.Result.{Result, ok, err, Result-cases}
use pq_migration_gateway.Json.{Json, Fields, obj, find, get_or, insert}
use pq_migration_gateway.Store.Tables.{staged, Store}
use pq_migration_gateway.Store.Releases.{status_of, create_version}
use pq_migration_gateway.Store.Releases.Steps.{create_version-writes}
use pq_migration_gateway.Config.Normalize.{document, normalize_config}
use pq_migration_gateway.Gateway.Render.{render}
use pq_migration_gateway.Store.Releases.History.{status_at}
use pq_migration_gateway.Store.Releases.Moves.{set_status-enters}
use pq_migration_gateway.World.{holds, Desired, Release, World, Host}
use pq_migration_gateway.Agent.{GatewayAgent, verify_release, unsigned, manifest_signature}
use pq_migration_gateway.Agent.Ends.{Ends, >>=-Ends, catch-Ends, on_store-either, any-Ends}
use pq_migration_gateway.Control.Validate.{Validated, validate_document}
use pq_migration_gateway.Control.{
  manifest_fields, sign, write_release, publish, stage_version, stage_document, key_or, stored_with,
}

-- The manifest that is written for a release verifies it, under the same key.
module _ (h : Host) (g : GatewayAgent) (version : ℕ) (v : Validated) (operator : String)
    (from : Option ℕ) (now : ℕ) where
  verify-sign :
      (r : Release)
      → v.rendered_checksum ≡ h.sha256 v.rendered
      → r.nginx_conf ≡ some v.rendered
      → r.manifest
        ≡ holds (obj (sign h g.signing_key (manifest_fields version v operator from now)))
      → verify_release h g r ≡ ok (v.rendered, h.sha256 v.rendered)
  unfolding verify_release sign manifest_fields manifest_signature unsigned find get_or insert
  verify-sign r digest conf manifest = elim (Bool-cases (g.signing_key == "")) [
    | inl no_key ↦ ground (arith, digest, conf, manifest, no_key, eq_refl (h.sha256 v.rendered))
    | inr key ↦ ground (
      arith,
      digest,
      conf,
      manifest,
      key,
      eq_refl (h.sha256 v.rendered),
      eq_refl (
          append "hmac-sha256:"
            (manifest_signature h (manifest_fields version v operator from now) g.signing_key)),
    )
  ]

-- A release that is ready for an agent: its checks pass, and desired.json points at it.
pub record IsStaged (h : Host) (g : GatewayAgent) (version : ℕ) (manifest : Fields) (w : World)
    : Type 0 where
  pub rendered : String
  pub written : (w.releases version).manifest ≡ holds (obj manifest)
  pub verified : verify_release h g (w.releases version) ≡ ok (rendered, h.sha256 rendered)
  pub is_staged : status_at version w.store ≡ some staged
  pub desired : Desired
  pub points : w.desired ≡ holds desired
  pub points_at : desired.version ≡ version
  pub same_digest : desired.rendered_checksum ≡ h.sha256 rendered

abbrev Anything : {A : Type 0} → A → World → Type 0
Anything a w = Unit

abbrev Ignored : World → Type 0
Ignored w = Unit

-- nginx.conf of the version holds the rendered text; and manifest.json its manifest.
abbrev HasConf : ℕ → String → World → Type 0
HasConf version rendered w = (w.releases version).nginx_conf ≡ some rendered

abbrev HasFiles : ℕ → String → Fields → World → Type 0
HasFiles version rendered manifest w =
    HasConf version rendered w × ((w.releases version).manifest ≡ holds (obj manifest))

write_release-at :
    (version : ℕ) (change : Release → Release) (w : World)
    → (write_release version change w).releases version ≡ change (w.releases version)
write_release-at version change w = rw (eqb_refl version) refl

publish-Ends :
    (h : Host) (g : GatewayAgent) (version : ℕ) (v : Validated) (operator : String)
    (from : Option ℕ) (w : World)
    → v.rendered_checksum ≡ h.sha256 v.rendered
    → Ends (IsStaged h g version) Ignored (publish h version v operator from g.signing_key w)
unfolding publish status_of
publish-Ends h g version v operator from w digest =
    let manifest = sign h g.signing_key (manifest_fields version v operator from w.now) in
    let Files = HasFiles version v.rendered manifest in
    let configured : Release → Release =
      λ r. record r { services_json = some (document v.canonical); nginx_conf = some v.rendered } in
    let with_manifest : Release → Release = λ r. record r { manifest = holds (obj manifest) } in
    >>=-Ends Anything _ _ _ _ w (any-Ends _) (λ _ w₁ _.
      >>=-Ends Anything _ _ _ _ w₁ (any-Ends _) (λ _ w₂ _.
        >>=-Ends Anything _ _ _ _ w₂ (any-Ends _) (λ _ w₃ _.
          >>=-Ends (λ _. HasConf version v.rendered) _ _ _ _ w₃
            (ap (λ r. r.nginx_conf) (write_release-at version configured w₃))
            (λ _ w₄ conf.
              >>=-Ends (λ _. Files) _ _ _ _ w₄
                (
                  ap (λ r. r.nginx_conf) (write_release-at version with_manifest w₄) ∙ conf,
                  ap (λ r. r.manifest) (write_release-at version with_manifest w₄),
                )
                (λ _ w₅ f₅.
                  >>=-Ends (λ _. Files) _ _ _ _ w₅ (on_store-either _ _ _ w₅ (λ st e. f₅) tt)
                    (λ _ w₆ f₆.
                      >>=-Ends (λ _ x. Files x × (status_at version x.store ≡ some staged)) _ _ _ _
                        w₆
                        (on_store-either _ _ _ w₆
                          (λ st e. (
                            f₆,
                            set_status-enters version "STAGED" staged operator none w₆.now w₆.store
                                refl e,
                          ))
                          tt)
                        (λ _ w₇ (f₇, at).
                          >>=-Ends (λ _. IsStaged h g version manifest) _ _ _ _ w₇
                            (record {
                              rendered = v.rendered;
                              written = f₇.1;
                              verified =
                                  verify-sign h g version v operator from w.now
                                    (w₇.releases version) digest f₇.0 f₇.1;
                              is_staged = at;
                              desired = record {
                                version = version;
                                rendered_checksum = v.rendered_checksum;
                                requested_at = w₇.now;
                                operator = operator;
                              };
                              points = refl;
                              points_at = refl;
                              same_digest = digest;
                            })
                            (λ _ w₈ s. s))))))))

validate_document-digest :
    (h : Host) (source : Json) {v : Validated}
    → validate_document h source ≡ ok v
    → v.rendered_checksum ≡ h.sha256 v.rendered
unfolding validate_document
validate_document-digest h source e = elim (Result-cases (normalize_config source)) [
  | inr (x, n) ↦ absurd (ground (arith, n, e))
  | inl (c, n) ↦ elim (Result-cases (render h.python_str source)) [
    | inr (x, r) ↦ absurd (ground (arith, n, r, e))
    | inl (text, r) ↦ ground (arith, n, r, e)
  ]
]

stage_version-Ends :
    (h : Host) (g : GatewayAgent) (version : ℕ) (source : Json) (operator : String)
    (from : Option ℕ) (w : World)
    → Ends
        (IsStaged h g version)
        Ignored
        (stage_version h version source operator from g.signing_key w)
unfolding stage_version
stage_version-Ends h g version source operator from w =
    >>=-Ends (λ v _. v.rendered_checksum ≡ h.sha256 v.rendered) _ _ _ _ w
      (catch-Ends _ Ignored Ignored _ _ w (checked (validate_document h source) refl)
        (λ e w' _. >>=-Ends Anything _ _ _ _ w' (any-Ends _) (λ _ w'' _. tt)))
      (λ v w' digest. publish-Ends h g version v operator from w' digest)
  where
    checked :
        (r : Result Validated)
        → validate_document h source ≡ r
        → Ends (λ v _. v.rendered_checksum ≡ h.sha256 v.rendered) Ignored (r, w)
    checked (ok v) e = validate_document-digest h source e
    checked (err x) e = tt

stage_document-Ends :
    (h : Host) (g : GatewayAgent) (environment : String) (source : Json) (operator : String)
    (from : Option ℕ) (signing_key : Option String) (w : World)
    → key_or environment signing_key ≡ g.signing_key
    → Ends
        (IsStaged h g (suc w.store.version_seq))
        Ignored
        (stage_document h environment source operator from signing_key w)
unfolding stage_document
stage_document-Ends h g environment source operator from signing_key w same_key =
    >>=-Ends (λ version _. version ≡ suc w.store.version_seq) _ _ _ _ w
      (created (create_version (h.digest source) source "" operator "DRAFT" from w.now w.store)
        refl)
      (λ version w' is_next.
        subst
          (λ u.
            Ends (IsStaged h g u) Ignored
              (stage_version h version source operator from (key_or environment signing_key) w'))
          is_next
          (subst
            (λ key.
              Ends (IsStaged h g version) Ignored
                (stage_version h version source operator from key w'))
            (sym same_key) (stage_version-Ends h g version source operator from w')))
  where
    created :
        (r : Result (ℕ × Store))
        → create_version (h.digest source) source "" operator "DRAFT" from w.now w.store ≡ r
        → Ends (λ version _. version ≡ suc w.store.version_seq) Ignored (stored_with w r)
    created (ok (version, st)) e =
        (create_version-writes (h.digest source) source "" operator "DRAFT" from w.now w.store e).2
    created (err x) e = tt

-- If `stage_document` returns a manifest, the new version is STAGED, manifest.json holds that
-- manifest, desired.json names the version and the digest of the rendered configuration, and every
-- agent with the same signing key, or with none if there is none, accepts the release.
pub stage_document-IsStaged :
    (h : Host) (g : GatewayAgent) (environment : String) (source : Json) (operator : String)
    (from : Option ℕ) (signing_key : Option String) (w : World) {manifest : Fields} {w' : World}
    → key_or environment signing_key ≡ g.signing_key
    → stage_document h environment source operator from signing_key w ≡ (ok manifest, w')
    → IsStaged h g (suc w.store.version_seq) manifest w'
stage_document-IsStaged h g environment source operator from signing_key w same_key staged_ok =
    subst (Ends (IsStaged h g (suc w.store.version_seq)) Ignored) staged_ok
      (stage_document-Ends h g environment source operator from signing_key w same_key)

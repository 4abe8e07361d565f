-- ===== src/Agent/Verified.antt =====
-- What `_verify_release` of gateway/agent.py shows of a release when it returns.
use pq_migration_gateway.Prelude.{
  ◌≡◌, refl, String, Option, none, some, arith, inl, inr, subst, ap, ◌∙◌, true, ◌⊎◌, ◌==◌, eq_iff,
  append, Bool-cases, Option-cases,
}
use pq_migration_gateway.Result.{ok, ok-injective}
use pq_migration_gateway.World.{Host, Release, File, missing, unreadable, holds}
use pq_migration_gateway.Json.{Json, Fields, null, bool, num, real, str, arr, obj, find, get_or}
use pq_migration_gateway.Agent.{
  GatewayAgent, verify_release, reads, unsigned, signature_matches, check_conf, manifest_signature,
}

-- A release with the digest of its manifest and, if a key is configured, with its signature.
pub record IsVerified (h : Host) (g : GatewayAgent) (release : Release) (conf actual : String)
    : Type 0 where
  pub manifest : Fields
  pub manifest_json : release.manifest ≡ holds (obj manifest)
  pub nginx_conf : release.nginx_conf ≡ some conf
  pub digest : actual ≡ h.sha256 conf
  pub recorded : find "rendered_checksum" manifest ≡ some (str actual)
  pub signed :
      ((g.signing_key == "") ≡ true)
      ⊎ (get_or "signature" (str "") manifest
          ≡ str (append "hmac-sha256:" (h.hmac g.signing_key (obj (unsigned manifest)))))

reads-eq : (v : Json) (expected : String) → reads v expected ≡ true → v ≡ str expected
reads-eq (str s) expected e = ap str ((eq_iff s expected).0 e)
reads-eq null expected e = cc
reads-eq (bool _) expected e = cc
reads-eq (num _) expected e = cc
reads-eq (real _) expected e = cc
reads-eq (arr _) expected e = cc
reads-eq (obj _) expected e = cc

module _ (h : Host) (g : GatewayAgent) where
  signature_matches-eq :
      (manifest : Fields)
      → signature_matches h g manifest ≡ true
      → ((g.signing_key == "") ≡ true)
        ⊎ (get_or "signature" (str "") manifest
            ≡ str (append "hmac-sha256:" (h.hmac g.signing_key (obj (unsigned manifest)))))
  unfolding manifest_signature
  signature_matches-eq manifest e = elim (Bool-cases (g.signing_key == "")) [
    | inl no_key ↦ inl no_key
    | inr key ↦ inr (reads-eq _ _ (rw key at e))
  ]

  check_conf-some :
      (c : Option String) (manifest : Fields) (conf actual : String)
      → check_conf h c manifest ≡ ok (conf, actual)
      → (c ≡ some conf)
        × (actual ≡ h.sha256 conf)
        × (find "rendered_checksum" manifest ≡ some (str actual))
  check_conf-some none manifest conf actual e = cc
  check_conf-some (some text) manifest conf actual e =
      elim (Option-cases (find "rendered_checksum" manifest)) [
        | inl lost ↦ absurd (ground (arith, lost))
        | inr (recorded, there) ↦ elim (Bool-cases (reads recorded (h.sha256 text))) [
          | inr other ↦ absurd (ground (arith, there, other))
          | inl same ↦
              let kept : ok (text, h.sha256 text) ≡ ok (conf, actual) =
                ground (arith, there, same) in
              subst
                (λ (p : String × String).
                  (some text ≡ some p.0)
                  × (p.1 ≡ h.sha256 p.0)
                  × (find "rendered_checksum" manifest ≡ some (str p.1)))
                (ok-injective kept)
                (refl, refl, there ∙ ap some (reads-eq recorded (h.sha256 text) same))
        ]
      ]

  pub verify_release-IsVerified :
      (release : Release) (conf actual : String)
      → verify_release h g release ≡ ok (conf, actual)
      → IsVerified h g release conf actual
  unfolding verify_release
  verify_release-IsVerified release conf actual = go release.manifest
    where
      go :
          (f : File Json)
          → verify_release h g (record release { manifest = f }) ≡ ok (conf, actual)
          → IsVerified h g (record release { manifest = f }) conf actual
      go missing e = cc
      go unreadable e = cc
      go (holds null) e = cc
      go (holds (bool _)) e = cc
      go (holds (num _)) e = cc
      go (holds (real _)) e = cc
      go (holds (str _)) e = cc
      go (holds (arr _)) e = cc
      go (holds (obj manifest)) e = elim (Bool-cases (signature_matches h g manifest)) [
        | inr forged ↦ absurd (ground (arith, forged))
        | inl good ↦
            let (there, digest, recorded) =
              check_conf-some release.nginx_conf manifest conf actual (rw good at e) in
            record {
              manifest = manifest;
              manifest_json = refl;
              nginx_conf = there;
              digest = digest;
              recorded = recorded;
              signed = signature_matches-eq manifest good;
            }
      ]

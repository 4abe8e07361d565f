-- ===== src/Migration/Hybrid.antt =====
-- The resource that `_compatibility_service` of manager/scan_orchestrator.py makes.
use pq_migration_gateway.Prelude.{
  ◌≡◌, refl, subst, String, true, false, some, ◌==◌, eq_iff, eq_refl, arith, Bool-cases,
  Option-cases, inl, inr,
}
use pq_migration_gateway.Result.{ok, ok-injective, >>=-eq-ok}
use pq_migration_gateway.Json.{
  Json, Fields, null, bool, num, real, arr, str, obj, find, get, insert, update, find-insert,
}
use pq_migration_gateway.Migration.Service.{
  set_default, tls_mode, group_list, hybrid_groups, rollout, section_of, as_section, change_section,
  spec_defaults, downstream_defaults, upstream_defaults, check_service, compatibility_service,
}

pub find-insert_self : (k : String) (v : Json) (fs : Fields) → find k (insert k v fs) ≡ some v
find-insert_self k v fs = ground (arith, find-insert k k v fs, eq_refl k)

pub find-insert_other :
    (k j : String) (v w : Json) (fs : Fields)
    → (k == j) ≡ false
    → find j fs ≡ some w
    → find j (insert k v fs) ≡ some w
find-insert_other k j v w fs other e = ground (arith, find-insert k j v fs)

-- What `as_section` takes is a `dict`.
pub as_section-eq : (v : Json) (fs : Fields) → as_section v ≡ ok fs → v ≡ obj fs
as_section-eq (bool _) fs e = cc
as_section-eq null fs e = cc
as_section-eq (num _) fs e = cc
as_section-eq (real _) fs e = cc
as_section-eq (str _) fs e = cc
as_section-eq (arr _) fs e = cc
as_section-eq (obj _) fs e = cc

-- A default does not change what a key has.
find-set_default :
    (k j : String) (v w : Json) (fs : Fields)
    → find j fs ≡ some w
    → find j (set_default k v fs) ≡ some w
unfolding set_default
find-set_default k j v w fs e = elim (Option-cases (find k fs)) [
  | inr (u, there) ↦ rw (there, set_default) e
  | inl away ↦
      rw (away, set_default)
        (elim (Bool-cases (k == j)) [
          | inr other ↦ find-insert_other k j v w fs other e
          | inl same ↦ ground (arith, eq_iff k j)
        ])
]

-- A resource that lets the clients of a service use the hybrid and the classical group; it has the
-- service's own values but for the rollout and the sections that it changes.
pub record IsHybrid (service spec : Fields) : Type 0 where
  pub rolled : find "rollout" spec ≡ some (rollout true)
  pub section : Fields
  pub downstream : find "downstream_tls" spec ≡ some (obj section)
  pub mode : find "mode" section ≡ some (str "compatibility")
  pub groups : find "groups" section ≡ some (group_list hybrid_groups)
  pub kept :
      (k : String) (v : Json)
      → ("downstream_tls" == k) ≡ false
      → ("rollout" == k) ≡ false
      → ("upstream" == k) ≡ false
      → find k service ≡ some v
      → find k spec ≡ some v

spec_defaults-kept :
    (k : String) (v : Json) (fs : Fields)
    → ("rollout" == k) ≡ false
    → find k fs ≡ some v
    → find k (spec_defaults fs) ≡ some v
spec_defaults-kept k v fs other e = find-set_default "protocol_options" k _ v _ (
    find-set_default "audit" k _ v _
      (find-insert_other "rollout" k _ v _ other (find-set_default "timeouts" k _ v fs e)))

spec_defaults-rollout : (fs : Fields) → find "rollout" (spec_defaults fs) ≡ some (rollout true)
spec_defaults-rollout fs =
    find-set_default "protocol_options" "rollout" _ _ _
      (find-set_default "audit" "rollout" _ _ _ (find-insert_self "rollout" _ _))

downstream_defaults-kept :
    (k : String) (v : Json) (section : Fields)
    → find k (update section (tls_mode "compatibility" hybrid_groups)) ≡ some v
    → find k (downstream_defaults section) ≡ some v
downstream_defaults-kept k v section e = find-set_default "client_ca" k _ v _ (
    find-set_default "private_key" k _ v _
      (find-set_default "certificate" k _ v _ (find-set_default "client_auth" k _ v _ e)))

downstream_defaults-mode :
    (section : Fields) → find "mode" (downstream_defaults section) ≡ some (str "compatibility")
unfolding update
downstream_defaults-mode section =
    downstream_defaults-kept "mode" _ section
      (find-insert_other "groups" "mode" _ _ _ refl (find-insert_self "mode" _ section))

downstream_defaults-groups :
    (section : Fields)
    → find "groups" (downstream_defaults section) ≡ some (group_list hybrid_groups)
unfolding update
downstream_defaults-groups section =
    downstream_defaults-kept "groups" _ section
      (find-insert_self "groups" _ (insert "mode" (str "compatibility") section))

made :
    (service section tls : Fields)
    → IsHybrid service (
        insert "upstream"
          (obj tls)
          (spec_defaults (insert "downstream_tls" (obj (downstream_defaults section)) service)))
made service section tls = record {
  rolled = find-insert_other "upstream" "rollout" _ _ _ refl (spec_defaults-rollout _);
  section = downstream_defaults section;
  downstream = find-insert_other "upstream" "downstream_tls" _ _ _ refl (
      spec_defaults-kept "downstream_tls" _ _ refl
        (find-insert_self "downstream_tls" (obj (downstream_defaults section)) service));
  mode = downstream_defaults-mode section;
  groups = downstream_defaults-groups section;
  kept = λ k v not_clients not_rollout not_upstream e.
      find-insert_other "upstream" k _ v _ not_upstream (
        spec_defaults-kept k v _ not_rollout
          (find-insert_other "downstream_tls" k _ v service not_clients e));
}

-- Whatever _compatibility_service returns has the compatibility mode with the hybrid and the classical
-- group, a rollout to all clients with fallback, and every other value of the service that it was
-- given, the upstream and the TLS section of the clients apart.
pub compatibility_service-IsHybrid :
    (python_str : Json → String) (service spec : Fields)
    → compatibility_service python_str service ≡ ok spec
    → IsHybrid service spec
unfolding compatibility_service change_section
compatibility_service-IsHybrid python_str service spec e₀ =
    let (_, _, e₁) = >>=-eq-ok (check_service python_str service) _ e₀ in
    let (d, e_d, e₂) =
      >>=-eq-ok (change_section "downstream_tls" downstream_defaults service) _ e₁ in
    let (up, _, e₃) = >>=-eq-ok (as_section (get "upstream" (spec_defaults d))) _ e₂ in
    let (tls, _, e₄) = >>=-eq-ok (change_section "tls" upstream_defaults up) _ e₃ in
    let (section, _, e₅) =
      >>=-eq-ok (as_section (section_of (find "downstream_tls" service))) _ e_d in
    subst (IsHybrid service) (ok-injective e₄) (
      subst (λ fs. IsHybrid service (insert "upstream" (obj tls) (spec_defaults fs)))
        (ok-injective e₅) (made service section tls))

-- ===== src/Config/Idempotent.antt =====
-- `normalize_config` of gateway/model.py on a document that it returned.
use pq_migration_gateway.Prelude.{◌≡◌, ◌≢◌, refl, true, List, [], ◌∷◌, map, All}
use pq_migration_gateway.Prelude.Text.{lower}
use pq_migration_gateway.Result.{ok}
use pq_migration_gateway.Json.{
  Json, Fields, obj, str, arr, array, elements-array, get, get_or, insert, insert-insert_self,
  get_or-insert_self,
}
use pq_migration_gateway.Config.Fields.{safe_name, safe_token, boolean, as_object}
use pq_migration_gateway.Config.Service.{Service, audit_of, service_fields}
use pq_migration_gateway.Config.Normalize.{
  Seen, nothing_seen, see, normalize_raw, services_of, service_list, Canonical, normalize_v4,
  normalize_config, is_version3, is_schema4, document,
}
use pq_migration_gateway.Config.Letters.{lower_idem, lower-safe_name}
use pq_migration_gateway.Config.RoundTrip.{
  name-eq-ok, token-eq-ok, optional-eq-ok, listen-eq-ok, timeouts-eq-ok, downstream-eq-ok,
  upstream-eq-ok, rollout-eq-ok,
}
use pq_migration_gateway.Config.Sound.{
  IsService, IsFresh, AllFresh, IsAccepted, normalize_config-IsAccepted,
}

-- Every group of every service matches the pattern that a list of groups is held to.
abbrev pub HasSafeGroups : Service → Type 0
HasSafeGroups s = All (λ g. safe_token g ≡ true) s.downstream_tls.groups

adapter-lower_idem : (s : Service) → IsService s → lower s.adapter ≡ s.adapter
adapter-lower_idem s h = let (a, _, e) = h.adapter_lower in rw e (lower_idem a)

adapter-safe_name : (s : Service) → IsService s → safe_name s.adapter ≡ true
adapter-safe_name s h = let (a, safe, e) = h.adapter_lower in rw e (lower-safe_name a safe)

service-eq-ok :
    (defaults : Fields) (seen : Seen) (s : Service)
    → IsService s
    → IsFresh seen s
    → HasSafeGroups s
    → normalize_raw defaults seen (obj (service_fields s)) ≡ ok s
unfolding normalize_raw as_object service_fields get audit_of boolean
service-eq-ok defaults seen s h f safe =
    let raw = service_fields s in
    rw (
      name-eq-ok s.id "service.id" h.id_safe,
      f.new_name,
      name-eq-ok s.adapter "adapter" (adapter-safe_name s h),
      listen-eq-ok raw s.id s.listen refl h.listen_rules,
      f.new_listener,
      downstream-eq-ok raw defaults s.downstream_tls refl h.downstream_rules safe,
      upstream-eq-ok raw defaults s.upstream s.sni refl h.upstream_rules,
      timeouts-eq-ok raw defaults s.timeouts refl h.timeout_rules,
      rollout-eq-ok raw s.downstream_tls.mode s.downstream_tls.groups s.rollout refl
          h.rollout_rules,
      optional-eq-ok s.sni "upstream.tls.sni" h.sni_safe,
      adapter-lower_idem s h,
    )

services-eq-ok :
    (defaults : Fields) (seen : Seen) (ss : List Service)
    → AllFresh seen ss
    → All HasSafeGroups ss
    → services_of defaults seen (map (λ s. obj (service_fields s)) ss) ≡ ok ss
unfolding services_of
services-eq-ok defaults seen [] a safe = refl
services-eq-ok defaults seen (s ∷ ss) (valid, fresh, rest) (safe, others) = rw (
  service-eq-ok defaults seen s valid fresh safe,
  services-eq-ok defaults (see s seen) ss rest others,
)

service_list-document :
    (ss : List Service)
    → ss ≢ []
    → service_list (arr (array (map (λ s. obj (service_fields s)) ss)))
      ≡ ok (map (λ s. obj (service_fields s)) ss)
unfolding service_list
service_list-document [] h = absurd (h refl)
service_list-document (s ∷ ss) h = rw elements-array

accepted-eq-ok :
    (c : Canonical)
    → IsAccepted c
    → All HasSafeGroups c.services
    → normalize_config (document c) ≡ ok c
unfolding normalize_config normalize_v4 document is_version3 is_schema4 as_object get
accepted-eq-ok c a safe =
    let (r, base, r_safe, e) = a.resolver in
    let named : get_or "dns_resolver" (str "127.0.0.11") c.defaults ≡ str r =
      rw e (get_or-insert_self "dns_resolver" (str "127.0.0.11") (str r) base) in
    let same : insert "dns_resolver" (str r) c.defaults ≡ c.defaults =
      rw e (insert-insert_self "dns_resolver" (str r) base) in
    rw (
      service_list-document c.services a.nonvoid,
      named,
      token-eq-ok r "defaults.dns_resolver" r_safe,
      services-eq-ok c.defaults nothing_seen c.services a.fresh safe,
      same,
    )

-- Normalising the document that `normalize_config` returned gives the same result, for every input
-- that it accepts and whose groups match `SAFE_TOKEN`. (Groups given as one colon-delimited text are
-- not matched against it, see `groups-unchecked`.)
pub normalize_config-document :
    (raw : Json) (c : Canonical)
    → normalize_config raw ≡ ok c
    → All HasSafeGroups c.services
    → normalize_config (document c) ≡ ok c
normalize_config-document raw c h safe = accepted-eq-ok c (normalize_config-IsAccepted raw c h) safe

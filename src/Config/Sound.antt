-- ===== src/Config/Sound.antt =====
-- Every configuration that `normalize_config` of gateway/model.py returns keeps the rules of the
-- canonical model, and no two of its services share an id or a listener.
use pq_migration_gateway.Prelude.{
  ◌≡◌, ◌≢◌, refl, String, true, false, inl, inr, List, [], ◌∷◌, arith, eq_refl, mem, All, subst,
  Bool-cases,
}
use pq_migration_gateway.Prelude.Text.{lower}
use pq_migration_gateway.Result.{ok, >>=-eq-ok, Result-cases, ok-injective}
use pq_migration_gateway.Json.{
  Json, Fields, obj, str, get, get_or, insert, get_or-insert_self, null,
}
use pq_migration_gateway.Config.Fields.{
  safe_name, safe_token, string, optional_string, nonempty, as_object,
}
use pq_migration_gateway.Config.Service.{
  Service, listen_of, downstream_of, upstream_of, timeouts_of, rollout_of,
}
use pq_migration_gateway.Config.Normalize.{
  Seen, nothing_seen, see, mem_listener, normalize_raw, services_of, service_list, Canonical,
  normalize_v4, normalize_config, is_version3,
}
use pq_migration_gateway.Config.Legacy.{legacy_to_v4}
use pq_migration_gateway.Config.Canonical.{
  IsListen, IsDownstream, IsUpstream, IsTimeouts, IsRollout, listen_of-IsListen,
  downstream_of-IsDownstream, upstream_of-IsUpstream, timeouts_of-IsTimeouts, rollout_of-IsRollout,
  string-matches, optional_string-safe,
}

-- The rules on one service.
pub record IsService (s : Service) : Type 0 where
  pub id_safe : safe_name s.id ≡ true
  pub adapter_lower : (a : String) × (safe_name a ≡ true) × (s.adapter ≡ lower a)
  pub listen_rules : IsListen s.listen
  pub downstream_rules : IsDownstream s.downstream_tls
  pub upstream_rules : IsUpstream s.upstream
  pub sni_safe : nonempty s.sni ≡ true → safe_token s.sni ≡ true
  pub timeout_rules : IsTimeouts s.timeouts
  pub rollout_rules : IsRollout s.downstream_tls.groups s.rollout

-- What a service must not repeat.
pub record IsFresh (seen : Seen) (s : Service) : Type 0 where
  pub new_name : mem s.id seen.names ≡ false
  pub new_listener : mem_listener s.listen.address s.listen.port seen.listeners ≡ false

-- What each validator returned on the way to an accepted service.
record ServiceSteps (defaults raw : Fields) (s : Service) (sni_raw : Json) : Type 0 where
  id_step : string safe_name (get "id" raw) "service.id" ≡ ok s.id
  listen_step : listen_of s.id raw ≡ ok s.listen
  downstream_step : downstream_of defaults raw ≡ ok s.downstream_tls
  upstream_step : upstream_of defaults raw ≡ ok (s.upstream, sni_raw)
  timeouts_step : timeouts_of defaults raw ≡ ok s.timeouts
  rollout_step : rollout_of s.downstream_tls.mode s.downstream_tls.groups raw ≡ ok s.rollout
  sni_step : optional_string sni_raw "upstream.tls.sni" ≡ ok s.sni

module _ (defaults raw : Fields) (seen : Seen) (s : Service)
    (accepted : normalize_raw defaults seen (obj raw) ≡ ok s) where
  normalize_raw-steps : (sni_raw : Json) × ServiceSteps defaults raw s sni_raw
  unfolding normalize_raw as_object
  normalize_raw-steps = elim (Result-cases (upstream_of defaults raw)) [
    | inl (r, e) ↦ (r.1, ground (arith, e))
    | inr (x, e) ↦ absurd (ground (arith, e))
  ]

  normalize_raw-IsFresh : IsFresh seen s
  unfolding normalize_raw as_object
  normalize_raw-IsFresh = ground arith

  normalize_raw-adapter :
      (a : String) × (string safe_name (get_or "adapter" (str "http") raw) "adapter" ≡ ok a)
      × (s.adapter ≡ lower a)
  unfolding normalize_raw as_object
  normalize_raw-adapter =
      elim (Result-cases (string safe_name (get_or "adapter" (str "http") raw) "adapter")) [
        | inl (a, e) ↦ (a, e, ground (arith, e))
        | inr (x, e) ↦ absurd (ground (arith, e))
      ]

  normalize_raw-IsService : IsService s
  normalize_raw-IsService =
      let (sni_raw, steps) = normalize_raw-steps in
      let (a, a_step, a_lower) = normalize_raw-adapter in
      record {
        id_safe = string-matches safe_name _ _ _ steps.id_step;
        adapter_lower = (a, string-matches safe_name _ _ _ a_step, a_lower);
        listen_rules = listen_of-IsListen _ _ _ steps.listen_step;
        downstream_rules = downstream_of-IsDownstream _ _ _ steps.downstream_step;
        upstream_rules = upstream_of-IsUpstream _ _ _ steps.upstream_step;
        sni_safe = optional_string-safe _ _ _ steps.sni_step;
        timeout_rules = timeouts_of-IsTimeouts _ _ _ steps.timeouts_step;
        rollout_rules = rollout_of-IsRollout _ _ _ _ steps.rollout_step;
      }

-- Only an object is accepted.
normalize_raw-object :
    (defaults : Fields) (seen : Seen) (raw : Json) (s : Service)
    → normalize_raw defaults seen raw ≡ ok s
    → (fs : Fields) × (raw ≡ obj fs)
unfolding normalize_raw as_object
normalize_raw-object defaults seen (obj fs) s h = (fs, refl)
normalize_raw-object defaults seen null s h = cc
normalize_raw-object defaults seen _ s h = cc

-- Every service of the list obeys the rules and repeats nothing of `seen`, nor of those before it.
abbrev pub AllFresh : Seen → List Service → Type 0
AllFresh seen [] = Unit
AllFresh seen (s ∷ ss) = IsService s × IsFresh seen s × AllFresh (see s seen) ss

services_of-AllFresh :
    (defaults : Fields) (seen : Seen) (raws : List Json) (ss : List Service)
    → services_of defaults seen raws ≡ ok ss
    → AllFresh seen ss
unfolding services_of
services_of-AllFresh defaults seen [] ss h = rw (← ok-injective h) tt
services_of-AllFresh defaults seen (raw ∷ raws) ss h =
    let (s, first, h') = >>=-eq-ok (normalize_raw defaults seen raw) _ h in
    let (rest, others, h'') = >>=-eq-ok (services_of defaults (see s seen) raws) _ h' in
    let (fs, is_obj) = normalize_raw-object defaults seen raw s first in
    let first' = subst (λ j. normalize_raw defaults seen j ≡ ok s) is_obj first in
    rw (← ok-injective h'') (
      normalize_raw-IsService defaults fs seen s first',
      normalize_raw-IsFresh defaults fs seen s first',
      services_of-AllFresh defaults (see s seen) raws rest others,
    )

-- Two services with neither the same id nor the same listener.
pub record Differ (s t : Service) : Type 0 where
  pub ids : t.id ≢ s.id
  pub listeners : (t.listen.address ≡ s.listen.address) → t.listen.port ≢ s.listen.port

abbrev pub Distinct : List Service → Type 0
Distinct [] = Unit
Distinct (s ∷ ss) = All (Differ s) ss × Distinct ss

-- `x` is in both sets of `seen`, as the id and the listener of a service.
record Has (seen : Seen) (s : Service) : Type 0 where
  name_in : mem s.id seen.names ≡ true
  listener_in : mem_listener s.listen.address s.listen.port seen.listeners ≡ true

Has-see_self : (seen : Seen) (s : Service) → Has (see s seen) s
Has-see_self seen s = ground (arith, eq_refl s.id, eq_refl s.listen.address)

Has-see : (seen : Seen) (s t : Service) → Has seen s → Has (see t seen) s
Has-see seen s t h = ground arith

Differ-IsFresh : (seen : Seen) (s t : Service) → Has seen s → IsFresh seen t → Differ s t
Differ-IsFresh seen s t h f = record { ids = λ e. cc; listeners = λ e e'. cc }

AllFresh-Differ :
    (seen : Seen) (s : Service) (ts : List Service)
    → Has seen s
    → AllFresh seen ts
    → All (Differ s) ts
AllFresh-Differ seen s [] h a = tt
AllFresh-Differ seen s (t ∷ ts) h (valid, fresh, rest) =
    (Differ-IsFresh seen s t h fresh, AllFresh-Differ (see t seen) s ts (Has-see seen s t h) rest)

AllFresh-Distinct : (seen : Seen) (ss : List Service) → AllFresh seen ss → Distinct ss
AllFresh-Distinct seen [] a = tt
AllFresh-Distinct seen (s ∷ ss) (valid, fresh, rest) = (
  AllFresh-Differ (see s seen) s ss (Has-see_self seen s) rest,
  AllFresh-Distinct (see s seen) ss rest,
)

AllFresh-IsService : (seen : Seen) (ss : List Service) → AllFresh seen ss → All IsService ss
AllFresh-IsService seen [] a = tt
AllFresh-IsService seen (s ∷ ss) (valid, fresh, rest) =
    (valid, AllFresh-IsService (see s seen) ss rest)

-- A result as the loop leaves it.
pub record IsAccepted (c : Canonical) : Type 0 where
  pub resolver :
      (r : String) × (base : Fields) × (safe_token r ≡ true)
      × (c.defaults ≡ insert "dns_resolver" (str r) base)
  pub nonvoid : c.services ≢ []
  pub fresh : AllFresh nothing_seen c.services

services_of-nonvoid :
    (defaults : Fields) (seen : Seen) (j : Json) (js : List Json)
    → services_of defaults seen (j ∷ js) ≢ ok []
unfolding services_of
services_of-nonvoid defaults seen j js h =
    let (s, first, h') = >>=-eq-ok (normalize_raw defaults seen j) _ h in
    let (rest, others, h'') = >>=-eq-ok (services_of defaults (see s seen) js) _ h' in cc

service_list-nonvoid : (j : Json) → service_list j ≢ ok []
unfolding service_list
service_list-nonvoid j h = ground arith

services_of_list-nonvoid :
    (j : Json) (defaults : Fields) (raws : List Json)
    → service_list j ≡ ok raws
    → services_of defaults nothing_seen raws ≢ ok []
services_of_list-nonvoid j defaults [] listed h = service_list-nonvoid j listed
services_of_list-nonvoid j defaults (raw ∷ raws) listed h =
    services_of-nonvoid defaults nothing_seen raw raws h

normalize_v4-IsAccepted :
    (config : Fields) (c : Canonical) → normalize_v4 config ≡ ok c → IsAccepted c
unfolding normalize_v4
normalize_v4-IsAccepted config c h =
    let (defaults, _, h₁) =
      >>=-eq-ok (as_object (get_or "defaults" (obj Fields.end) config) "defaults") _ h in
    let (raws, listed, h₂) = >>=-eq-ok (service_list (get "services" config)) _ h₁ in
    let (r, named, h₃) =
      >>=-eq-ok
        (string safe_token (get_or "dns_resolver" (str "127.0.0.11") defaults)
          "defaults.dns_resolver")
        _ h₂ in
    let (ss, all, h₄) = >>=-eq-ok (services_of defaults nothing_seen raws) _ h₃ in
    subst IsAccepted (ok-injective h₄) (record {
      resolver = (r, defaults, string-matches safe_token _ _ _ named, refl);
      nonvoid = λ none.
          services_of_list-nonvoid (get "services" config) defaults raws listed
            (subst (λ l. services_of defaults nothing_seen raws ≡ ok l) none all);
      fresh = services_of-AllFresh defaults nothing_seen raws ss all;
    })

pub normalize_config-IsAccepted :
    (raw : Json) (c : Canonical) → normalize_config raw ≡ ok c → IsAccepted c
unfolding normalize_config
normalize_config-IsAccepted (obj config) c h = elim (Bool-cases (is_version3 config)) [
  | inl old ↦
      let (v4, _, h') = >>=-eq-ok (legacy_to_v4 config) normalize_v4 (ground (arith, old)) in
      normalize_v4-IsAccepted v4 c h'
  | inr new ↦ normalize_v4-IsAccepted config c (ground (arith, new))
]
normalize_config-IsAccepted null c h = cc
normalize_config-IsAccepted _ c h = cc

pub record IsCanonical (c : Canonical) : Type 0 where
  pub resolver_safe : (r : String) × (safe_token r ≡ true) × (get "dns_resolver" c.defaults ≡ str r)
  pub nonvoid : c.services ≢ []
  pub rules : All IsService c.services
  pub no_clash : Distinct c.services

IsAccepted-IsCanonical : (c : Canonical) → IsAccepted c → IsCanonical c
unfolding get
IsAccepted-IsCanonical c a =
    let (r, base, safe, e) = a.resolver in
    record {
      resolver_safe = (r, safe, rw e (get_or-insert_self "dns_resolver" null (str r) base));
      nonvoid = a.nonvoid;
      rules = AllFresh-IsService nothing_seen c.services a.fresh;
      no_clash = AllFresh-Distinct nothing_seen c.services a.fresh;
    }

-- Whatever the document, version 3 or 4: if it is accepted, the result is canonical. It has at least
-- one service; ids, addresses, certificates and keys match their patterns; ports lie in 1 to 65535
-- and the hybrid share in 0 to 100; group sets are filled and without repeats, and have no X25519 in
-- strict mode or where fallback is not allowed; upstream verification implies TLS; no two services
-- share an id or a listener.
pub normalize_config-IsCanonical :
    (raw : Json) (c : Canonical) → normalize_config raw ≡ ok c → IsCanonical c
normalize_config-IsCanonical raw c h =
    IsAccepted-IsCanonical c (normalize_config-IsAccepted raw c h)

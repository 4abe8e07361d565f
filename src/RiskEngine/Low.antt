-- ===== src/RiskEngine/Low.antt =====
-- When manager/risk_engine.py rates an endpoint as LOW.
use pq_migration_gateway.Prelude.{◌≡◌, refl, String, Bool, true, false, ap, ◌∙◌, ◌≢◌, ◌==◌, eq_iff}
use pq_migration_gateway.Result.{ok, ok-injective}
use pq_migration_gateway.Json.{
  Json, Fields, null, num, real, arr, str, bool, obj, get, get_or, truthy,
}
use pq_migration_gateway.Store.Inventory.{max_risk, risk_rank}
use pq_migration_gateway.RiskEngine.{
  Findings, findings, rate, exchange_findings, certificate_findings, key_exchange, certificate,
  is_text,
}

-- What is known of an endpoint without a finding.
pub record IsMigrated (endpoint : Fields) : Type 0 where
  pub reachable : is_text "reachable" (get "status" endpoint) ≡ true
  pub hybrid : truthy (get "pqc_supported" endpoint) ≡ true
  pub no_fallback : truthy (get "fallback_enabled" endpoint) ≡ false
  pub cert : Fields
  pub has_cert : get_or "certificate" (obj Fields.end) endpoint ≡ obj cert
  pub strong : truthy (get "quantum_vulnerable_authentication" cert) ≡ false

not_low : (risk : String) → (risk == "LOW") ≡ false → risk ≢ "LOW"
not_low risk other e = cc (other, (eq_iff risk "LOW").1 e)

low_tests :
    (a b c : Bool)
    → (certificate_findings c (exchange_findings a b)).risk ≡ "LOW"
    → (a ≡ true) × (b ≡ false) × (c ≡ false)
unfolding exchange_findings certificate_findings max_risk risk_rank
low_tests true false false low = (refl, refl, refl)
low_tests true false true low = absurd (not_low "MEDIUM" refl low)
low_tests true true false low = absurd (not_low "MEDIUM" refl low)
low_tests true true true low = absurd (not_low "MEDIUM" refl low)
low_tests false b false low = absurd (not_low "HIGH" refl low)
low_tests false b true low = absurd (not_low "HIGH" refl low)

rated_low :
    (reachable : Bool) (cert : Json) (endpoint : Fields) {f : Findings}
    → rate reachable cert endpoint ≡ ok f
    → f.risk ≡ "LOW"
    → (reachable ≡ true)
      × ((c : Fields) × (cert ≡ obj c) × ((certificate c (key_exchange endpoint)).risk ≡ "LOW"))
unfolding rate
rated_low false cert endpoint e low =
    absurd (not_low "HIGH" refl (ap (λ x. x.risk) (ok-injective e) ∙ low))
rated_low true (obj c) endpoint e low = (refl, (c, refl, ap (λ x. x.risk) (ok-injective e) ∙ low))
rated_low true null endpoint e low = cc
rated_low true (bool b) endpoint e low = cc
rated_low true (num n) endpoint e low = cc
rated_low true (real r) endpoint e low = cc
rated_low true (str t) endpoint e low = cc
rated_low true (arr items) endpoint e low = cc

-- An endpoint is rated LOW only if it is reachable, has a hybrid group, no classical fallback, and a
-- certificate that is not marked as quantum-vulnerable.
pub findings-IsMigrated :
    (endpoint : Fields) {f : Findings}
    → findings endpoint ≡ ok f
    → f.risk ≡ "LOW"
    → IsMigrated endpoint
unfolding findings key_exchange certificate
findings-IsMigrated endpoint e low =
    let (on, (cert, is_cert, rated)) = rated_low _ _ endpoint e low in
    let (hybrid, no_fallback, strong) = low_tests _ _ _ rated in
    record {
      reachable = on;
      hybrid = hybrid;
      no_fallback = no_fallback;
      cert = cert;
      has_cert = is_cert;
      strong = strong;
    }

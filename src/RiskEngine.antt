-- ===== src/RiskEngine.antt =====
-- `assess_endpoint` of manager/risk_engine.py.
pub mod Low
mod Tests
use pq_migration_gateway.Prelude.{
  String, Bool, true, false, append, ◌==◌, if◌then◌else◌, List, [], ◌∷◌, ◌++◌, map,
}
use pq_migration_gateway.Result.{Result, ok, err, type_error, attribute_error, ◌>>=◌}
use pq_migration_gateway.Json.{
  Json, Items, Fields, bool, str, arr, obj, array, dict, get, get_or, truthy,
}
use pq_migration_gateway.Store.Inventory.{max_risk, text}

pub record Findings : Type 0 where
  pub risk : String
  pub reasons : List String
  pub recommendations : List String

abbrev pub is_text : String → Json → Bool
is_text s (str t) = t == s
is_text s _ = false

abbrev unreachable : Findings
unreachable = record {
  risk = "HIGH";
  reasons = "Endpoint was not reachable with the tested TLS 1.3 groups." ∷ [];
  recommendations =
      "Check connectivity, certificate trust, and supported TLS versions/groups." ∷ [];
}

-- What the key exchange of a reachable endpoint gives.
unfoldable pub exchange_findings : Bool → Bool → Findings
unfolding max_risk
exchange_findings pqc_supported fallback_enabled =
    if pqc_supported
    then (if fallback_enabled
        then record {
          risk = max_risk "LOW" ("MEDIUM" ∷ []);
          reasons = "Hybrid/PQC is available, but classical X25519 fallback remains enabled." ∷ [];
          recommendations =
              "Measure fallback use and move to strict mode after client compatibility is proven."
              ∷ [];
        }
        else record {
          risk = "LOW";
          reasons = "Hybrid/PQC key exchange is available without tested X25519 fallback." ∷ [];
          recommendations = [];
        })
    else record {
      risk = "HIGH";
      reasons = "No tested Hybrid/PQC key-exchange group succeeded." ∷ [];
      recommendations =
          "Place the service behind the migration gateway or upgrade its TLS stack." ∷ [];
    }

unfoldable pub key_exchange : Fields → Findings
unfolding exchange_findings
key_exchange endpoint =
    exchange_findings (truthy (get "pqc_supported" endpoint))
      (truthy (get "fallback_enabled" endpoint))

-- What its certificate adds, if the authentication is quantum-vulnerable.
unfoldable pub certificate_findings : Bool → Findings → Findings
unfolding max_risk
certificate_findings vulnerable f =
    if vulnerable
    then record {
      risk = max_risk f.risk ("MEDIUM" ∷ []);
      reasons =
          f.reasons
          ++ ("The TLS certificate authentication layer still uses a quantum-vulnerable public-key algorithm."
              ∷ []);
      recommendations =
          f.recommendations
          ++ ("Plan an independent certificate/PKI migration; KEX migration alone is not full-stack PQC."
              ∷ []);
    }
    else f

unfoldable pub certificate : Fields → Findings → Findings
unfolding certificate_findings
certificate cert f = certificate_findings (truthy (get "quantum_vulnerable_authentication" cert)) f

-- The branches, by whether the endpoint is reachable, and by its certificate.
unfoldable pub rate : Bool → Json → Fields → Result Findings
unfolding key_exchange certificate
rate false cert endpoint = ok unreachable
rate true (obj cert) endpoint = ok (certificate cert (key_exchange endpoint))
rate true _ endpoint = err (attribute_error "get")

unfoldable pub findings : Fields → Result Findings
unfolding rate
findings endpoint =
    rate (is_text "reachable" (get "status" endpoint))
      (get_or "certificate" (obj Fields.end) endpoint) endpoint

-- `"risk-" + v`
abbrev finding_id : Json → Result String
finding_id (str id) = ok (append "risk-" id)
finding_id _ = err (type_error "endpoint_id")

unfoldable pub assess_endpoint : (Json → String) → Fields → Result Json
unfolding findings
assess_endpoint python_str endpoint = do
  f ← findings endpoint
  id ← finding_id (get_or "endpoint_id" (str "unknown") endpoint)
  ok (
      obj (
        dict (
          ("finding_id", str id)
          ∷ ("category", str "tls_endpoint")
          ∷ (
            "target",
            str (
                append (text python_str (get "sni" endpoint))
                  (append ":" (text python_str (get "port" endpoint)))),
          )
          ∷ ("risk", str f.risk)
          ∷ ("reasons", arr (array (map (λ s. str s) f.reasons)))
          ∷ ("recommendations", arr (array (map (λ s. str s) f.recommendations)))
          ∷ (
            "metadata",
            obj (
                dict (
                  ("pqc_supported", get_or "pqc_supported" (bool false) endpoint)
                  ∷ ("fallback_enabled", get_or "fallback_enabled" (bool false) endpoint)
                  ∷ ("supported_groups", get_or "supported_groups" (arr Items.nil) endpoint)
                  ∷ [])),
          )
          ∷ [])))

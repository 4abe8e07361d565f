-- ===== src/RiskEngine/Tests.antt =====
-- An endpoint that has migrated.
use pq_migration_gateway.Prelude.{refl, true, false, [], ◌∷◌}
use pq_migration_gateway.Json.{Fields, str, bool, dict, get, get_or, find}
use pq_migration_gateway.RiskEngine.{
  Findings, findings, rate, key_exchange, exchange_findings, certificate, certificate_findings,
}
use pq_migration_gateway.RiskEngine.Low.{IsMigrated, findings-IsMigrated}

abbrev migrated : Fields
migrated = dict (
    ("status", str "reachable")
    ∷ ("pqc_supported", bool true)
    ∷ ("fallback_enabled", bool false)
    ∷ [])

abbrev no_finding : Findings
no_finding = record {
  risk = "LOW";
  reasons = "Hybrid/PQC key exchange is available without tested X25519 fallback." ∷ [];
  recommendations = [];
}

findings-IsMigrated_example : IsMigrated migrated
unfolding findings rate key_exchange exchange_findings certificate certificate_findings get get_or
    find
findings-IsMigrated_example = findings-IsMigrated migrated {f = no_finding} refl refl

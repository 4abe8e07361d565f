-- ===== src/Migration/Assess.antt =====
-- `assess` and `_advance` of manager/scan_orchestrator.py. What a migration takes from its host: `str`
-- and `json.dumps` of JSON values, `float`, the hexadecimal digest, and fresh ids.
use pq_migration_gateway.Prelude.{
  String, Bool, true, false, ◌||◌, List, [], ◌∷◌, map, Option, none, some, ◌==◌, append,
  if◌then◌else◌, any,
}
use pq_migration_gateway.Prelude.Int.{ℤ}
use pq_migration_gateway.Prelude.Text.{upper, lower}
use pq_migration_gateway.Result.{Result, ok}
use pq_migration_gateway.Exec.{Exec, query, ◌>>=◌, ◌>>◌, pure}
use pq_migration_gateway.Json.{Json, bool, real, str, arr, obj, array, dict}
use pq_migration_gateway.Gateway.Text.{join}
use pq_migration_gateway.Store.Tables.{MigrationState}
use pq_migration_gateway.Store.Scans.{create_asset_assessment}
use pq_migration_gateway.Store.Inventory.{text_or, objects, max_risk}
use pq_migration_gateway.Report.Texts.{contains_any, contains}
use pq_migration_gateway.StateMachine.{
  Change, get_state, same_state, source_of, state_name, transition,
}
use pq_migration_gateway.Discovery.Lists.{AssetReport, get_crypto_asset}
use pq_migration_gateway.World.{World, Host}
use pq_migration_gateway.Agent.{on_store}

-- A float: a NaN, an infinity, or a value in millionths.
pub data Float : Type 0 where
  nan : Float
  infinite : Bool → Float
  finite : ℤ → Float

-- `as_float` is `float(v)` and `float_text` the text of a float in JSON; `column_text` is the text that SQLite compares a number with in a TEXT
-- column.
pub record Python : Type 0 where
  pub dumps : Json → String
  pub as_float : Json → Result Float
  pub float_text : Float → String
  pub column_text : Json → String
  pub fresh_id : String

unfoldable pub all_evidence : Python → AssetReport → List String
all_evidence py asset =
    asset.asset.algorithm ∷ py.dumps asset.asset.payload ∷ map py.dumps asset.evidence

abbrev classical_algorithms : List String
classical_algorithms = "RSA" ∷ "ECDSA" ∷ "ECDH" ∷ "DIFFIE-HELLMAN" ∷ []

abbrev pqc_algorithms : List String
pqc_algorithms = "ML-KEM" ∷ "MLKEM" ∷ "ML-DSA" ∷ "X25519MLKEM" ∷ "LIBOQS" ∷ "OQS_" ∷ []

pub record AssetFindings : Type 0 where
  pub risk : String
  pub classical : Bool
  pub openssl : Bool
  pub pqc : Bool

-- What `assess` reads out of the asset and its evidence; the payloads that are stored are objects.
unfoldable pub asset_findings : Host → Python → AssetReport → AssetFindings
unfolding max_risk contains_any contains join upper lower all_evidence
asset_findings h py asset =
    let rows = objects asset.evidence in
    let searchable = upper (join "\n" (all_evidence py asset)) in
    record {
      risk = max_risk asset.asset.risk (map (text_or h.python_str "risk" "INFO") rows);
      classical = contains_any classical_algorithms searchable;
      openssl =
          contains "OPENSSL" searchable
          || any (λ r. lower (text_or h.python_str "library" "" r) == "openssl") rows;
      pqc = contains_any pqc_algorithms searchable;
    }

abbrev when : Bool → String → List String → List String
when test reason rest = if test then reason ∷ rest else rest

abbrev or_unknown : List String → List String
or_unknown [] =
    "Cryptographic evidence requires owner and service correlation before migration." ∷ []
or_unknown (r ∷ rs) = r ∷ rs

unfoldable pub assessment_reasons : AssetFindings → List String
assessment_reasons f = or_unknown (
    when f.classical "Classical public-key cryptography was found and is quantum-vulnerable." (
      when f.openssl
        "OpenSSL interfaces or dependencies provide a practical TLS migration boundary."
        (when f.pqc "PQC or hybrid interfaces were already observed and must be verified online."
          [])))

unfoldable pub assessment_result : String → AssetFindings → Json
unfolding assessment_reasons
assessment_result asset_id f = obj (
    dict (
      ("asset_id", str asset_id)
      ∷ ("risk", str f.risk)
      ∷ ("decision", str (if f.classical then "MIGRATION_REQUIRED" else "VERIFY_AND_PLAN"))
      ∷ ("recommended_initial_mode", str "compatibility")
      ∷ ("target_mode", str "strict")
      ∷ ("reasons", arr (array (map (λ r. str r) (assessment_reasons f))))
      ∷ (
        "guardrails",
        obj (
            dict (
              ("required_verification", bool true)
              ∷ ("maximum_fallback_rate_for_strict", real "0.01")
              ∷ ("strict_groups", arr (array (str "X25519MLKEM768" ∷ [])))
              ∷ [])),
      )
      ∷ []))

abbrev assessment_id : Python → String
assessment_id py = append "assessment-" py.fresh_id

-- `assess`, with the id of the assessment
unfoldable pub assess : Host → Python → String → String → Exec World String
unfolding asset_findings assessment_result on_store
assess h py asset_id actor = do
  asset ← query (λ w. get_crypto_asset asset_id 1000 w.store)
  let found = asset_findings h py asset
  on_store (
      create_asset_assessment (assessment_id py) asset_id found.risk
        (assessment_result asset_id found) actor)
  pure (assessment_id py)

abbrev pub is_state : MigrationState → Option MigrationState → Bool
is_state target none = false
is_state target (some m) = same_state m target

-- One target of `_advance`: it is skipped if the service is there already.
unfoldable pub advance_to : String → Change → MigrationState → Exec World (Unit {0})
unfolding on_store state_name
advance_to sid change target = do
  there ← query (λ w. ok (is_state target (source_of (get_state sid w.store))))
  if there then pure tt else on_store (transition sid (state_name target) change)

-- `_advance`
unfoldable pub advance : String → Change → List MigrationState → Exec World (Unit {0})
unfolding advance_to
advance sid change [] = pure tt
advance sid change (t ∷ ts) = do advance_to sid change t; advance sid change ts

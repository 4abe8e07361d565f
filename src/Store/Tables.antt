-- ===== src/Store/Tables.antt =====
-- The rows of the tables in SCHEMA of manager/config_store.py. A column of JSON text holds the
-- value; a column that holds `str(exc)` holds the exception; times are seconds; REAL columns are in
-- millionths.
use pq_migration_gateway.Prelude.{ℕ, String, List, [], Option}
use pq_migration_gateway.Prelude.Int.{ℤ}
use pq_migration_gateway.Result.{Error}
use pq_migration_gateway.Json.{Json}
use pq_migration_gateway.Report.Types.{RuntimeProcess, Observation, Summary}

-- RELEASE_STATES
pub data ReleaseStatus : Type 0 where
  draft validated staged applied healthy : ReleaseStatus
  validation_failed nginx_test_failed reload_failed health_check_failed rolled_back : ReleaseStatus
  candidate ready failed : ReleaseStatus

pub record VersionRow : Type 0 where
  pub version : ℕ
  pub checksum : String
  pub created_at : ℕ
  pub operator : String
  pub status : ReleaseStatus
  pub rollback_from : Option ℕ
  pub source : Json
  pub rendered_config : String
  pub error : Option Error

pub record StatusEvent : Type 0 where
  pub version : ℕ
  pub from_status : Option ReleaseStatus
  pub to_status : ReleaseStatus
  pub actor : String
  pub error : Option Error
  pub created_at : ℕ

-- `object_id`: the text of a version number, or a name.
pub data ObjectId : Type 0 where
  version_id : ℕ → ObjectId
  name_id : String → ObjectId

-- `error_detail` is the `error` entry of the details, where they have one.
pub record AuditEvent : Type 0 where
  pub created_at : ℕ
  pub actor : String
  pub action : String
  pub object_type : String
  pub object_id : ObjectId
  pub details : Json
  pub error_detail : Option Error

-- STATES of manager/state_machine.py
pub data MigrationState : Type 0 where
  discovered assessed planned compatibility pqc_preferred strict verified : MigrationState
  degraded rolled_back blocked : MigrationState

pub record StateRow : Type 0 where
  pub service_id : String
  pub state : MigrationState
  pub config_version : Option ℕ
  pub updated_at : ℕ
  pub operator : String
  pub reason : String

pub record TransitionRow : Type 0 where
  pub service_id : String
  pub from_state : Option MigrationState
  pub to_state : MigrationState
  pub config_version : Option ℕ
  pub verification_result : Option String
  pub fallback_rate : Option ℤ
  pub operator : String
  pub reason : String
  pub created_at : ℕ

-- `service_resources` and `policy_resources`, which have the same columns
pub record ResourceRow : Type 0 where
  pub id : String
  pub spec : Json
  pub revision : ℕ
  pub source_config_version : Option ℕ
  pub created_at : ℕ
  pub updated_at : ℕ
  pub actor : String

pub record SettingRow : Type 0 where
  pub setting_key : String
  pub value : Json
  pub updated_at : ℕ
  pub actor : String

pub record AgentRow : Type 0 where
  pub agent_id : String
  pub current_version : Option ℕ
  pub desired_version : Option ℕ
  pub status : String
  pub health : String
  pub reload_result : Option String
  pub active_connections : Option ℕ
  pub fallback_rate : Option ℤ
  pub error : Option Error
  pub metadata : Json
  pub first_seen : ℕ
  pub last_seen : ℕ

pub data MetricType : Type 0 where
  counter gauge : MetricType

pub record MetricRow : Type 0 where
  pub metric_name : String
  pub labels : List (String × String)
  pub metric_type : MetricType
  pub help_text : String
  pub metric_value : ℤ
  pub updated_at : ℕ

pub data ScanStatus : Type 0 where
  queued running succeeded failed : ScanStatus

pub record ScanJob : Type 0 where
  pub scan_id : String
  pub scan_type : String
  pub status : ScanStatus
  pub request : Json
  pub summary : Json
  pub output_path : String
  pub error : Option Error
  pub actor : String
  pub created_at : ℕ
  pub started_at : Option ℕ
  pub completed_at : Option ℕ

pub record CryptoAsset : Type 0 where
  pub asset_id : String
  pub latest_scan_id : String
  pub asset_type : String
  pub path : String
  pub algorithm : String
  pub risk : String
  pub pq_status : String
  pub payload : Json
  pub created_at : ℕ
  pub updated_at : ℕ

pub record ScanFinding : Type 0 where
  pub scan_id : String
  pub finding_id : String
  pub asset_id : Option String
  pub finding_type : String
  pub risk : String
  pub payload : Json

pub record Assessment : Type 0 where
  pub assessment_id : String
  pub asset_id : String
  pub risk : String
  pub result : Json
  pub actor : String
  pub created_at : ℕ

pub record PlanRow : Type 0 where
  pub plan_id : String
  pub asset_id : String
  pub service_id : String
  pub status : String
  pub compatibility_version : Option ℕ
  pub strict_version : Option ℕ
  pub plan : Json
  pub actor : String
  pub created_at : ℕ
  pub updated_at : ℕ

pub data DiscoveryStatus : Type 0 where
  reporting healthy degraded : DiscoveryStatus

-- `runtime_discovery_agents`
pub record DiscoveryAgent : Type 0 where
  pub agent_id : String
  pub hostname : String
  pub version : String
  pub boot_id : String
  pub mode : String
  pub status : DiscoveryStatus
  pub capabilities : List String
  pub metadata : Json
  pub first_seen : ℕ
  pub last_seen : ℕ
  pub last_error : Option Error

pub data BatchStatus : Type 0 where
  received ingested failed : BatchStatus

-- `runtime_discovery_batches`
pub record Batch : Type 0 where
  pub batch_id : String
  pub agent_id : String
  pub scan_id : String
  pub status : BatchStatus
  pub collected_at : String
  pub received_at : ℕ
  pub completed_at : Option ℕ
  pub summary : Summary
  pub error : Option Error

-- `runtime_process_instances`; `process` has the columns that the report gives.
pub record ProcessInstance : Type 0 where
  pub agent_id : String
  pub process : RuntimeProcess
  pub first_seen : ℕ
  pub last_seen : ℕ

-- `runtime_observations`; `first` has the columns that the first report gave and no later one
-- changes.
pub record ObservationRow : Type 0 where
  pub observation_key : String
  pub latest_batch_id : String
  pub agent_id : String
  pub first : Observation
  pub observation_count : ℤ
  pub first_observed : String
  pub last_observed : String
  pub last_observed_epoch : ℕ
  pub payload : Observation

-- The database. `version_seq` is the AUTOINCREMENT counter of `config_versions`.
pub record Store : Type 0 where
  pub version_seq : ℕ
  pub config_versions : List VersionRow
  pub config_status_events : List StatusEvent
  pub audit_events : List AuditEvent
  pub service_states : List StateRow
  pub state_transitions : List TransitionRow
  pub service_resources : List ResourceRow
  pub policy_resources : List ResourceRow
  pub control_settings : List SettingRow
  pub gateway_agents : List AgentRow
  pub runtime_metrics : List MetricRow
  pub scan_jobs : List ScanJob
  pub crypto_assets : List CryptoAsset
  pub scan_findings : List ScanFinding
  pub asset_assessments : List Assessment
  pub migration_plans : List PlanRow
  pub runtime_discovery_agents : List DiscoveryAgent
  pub runtime_discovery_batches : List Batch
  pub runtime_process_instances : List ProcessInstance
  pub runtime_observations : List ObservationRow

-- A new database.
abbrev pub empty_store : Store
empty_store = record {
  version_seq = 0;
  config_versions = [];
  config_status_events = [];
  audit_events = [];
  service_states = [];
  state_transitions = [];
  service_resources = [];
  policy_resources = [];
  control_settings = [];
  gateway_agents = [];
  runtime_metrics = [];
  scan_jobs = [];
  crypto_assets = [];
  scan_findings = [];
  asset_assessments = [];
  migration_plans = [];
  runtime_discovery_agents = [];
  runtime_discovery_batches = [];
  runtime_process_instances = [];
  runtime_observations = [];
}

-- ===== src/Report/Types.antt =====
-- The report of a runtime agent as manager/runtime_ingest.py returns it: the `dict`s of
-- `normalize_runtime_report`, with a field for each key.
use pq_migration_gateway.Prelude.{ℕ, String, List}
use pq_migration_gateway.Prelude.Int.{ℤ}
use pq_migration_gateway.Json.{Json}

pub record RuntimeAgent : Type 0 where
  pub id : String
  pub hostname : String
  pub version : String
  pub boot_id : String
  pub mode : String
  pub capabilities : List String
  pub metadata : Json

pub record Container : Type 0 where
  pub id : String
  pub runtime : String
  pub pod_uid : String
  pub cgroup : String

pub record RuntimeProcess : Type 0 where
  pub process_instance_id : String
  pub workload_asset_id : String
  pub pid : ℤ
  pub start_time_ticks : ℤ
  pub executable : String
  pub command : String
  pub uid : ℤ
  pub mapped_crypto_libraries : List String
  pub container : Container
  pub namespaces : Json
  pub metadata : Json

pub record Observation : Type 0 where
  pub observation_key : String
  pub process_instance_id : String
  pub workload_asset_id : String
  pub pid : ℤ
  pub start_time_ticks : ℤ
  pub evidence_type : String
  pub method : String
  pub library : String
  pub algorithm : String
  pub risk : String
  pub pq_status : String
  pub confidence : String
  pub source : String
  pub observed_at : String
  pub count : ℤ
  pub metadata : Json

pub record Summary : Type 0 where
  pub processes : ℕ
  pub containers : ℕ
  pub mapped_library_observations : ℕ
  pub runtime_call_observations : ℕ

pub record Report : Type 0 where
  pub batch_id : String
  pub collected_at : String
  pub agent : RuntimeAgent
  pub processes : List RuntimeProcess
  pub observations : List Observation
  pub summary : Summary

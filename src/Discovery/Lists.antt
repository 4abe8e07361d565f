-- ===== src/Discovery/Lists.antt =====
-- The readers of runtime discovery in manager/config_store.py: `list_runtime_batches`,
-- `get_runtime_agent`, `list_runtime_agents` and `list_runtime_observations`; and
-- `get_crypto_asset`. Where the code's ORDER BY leaves rows tied, SQLite may give them in any order;
-- the model takes one.
use pq_migration_gateway.Prelude.{
  ℕ, ◌+◌, String, Bool, false, ◌&&◌, ◌||◌, List, [], ◌∷◌, Option, none, some, map, ◌==◌, eqb, ltb,
  max, take, keep, length,
}
use pq_migration_gateway.Prelude.Int.{ℤ, pos, ◌+ℤ◌}
use pq_migration_gateway.Result.{Result, ok, key_error, ◌>>=◌}
use pq_migration_gateway.Json.{Json}
use pq_migration_gateway.Store.Rows.{clamp_limit}
use pq_migration_gateway.Store.Tables.{
  Batch, DiscoveryAgent, ProcessInstance, ObservationRow, CryptoAsset, Assessment, PlanRow,
  ScanFinding, Store,
}
use pq_migration_gateway.Store.Releases.{or_raise}
use pq_migration_gateway.Store.Scans.{find_asset}
use pq_migration_gateway.Store.Lists.{less, order_by}
use pq_migration_gateway.Store.Inventory.{sorted_set}
use pq_migration_gateway.Discovery.Writes.{get_runtime_batch, find_discovery}

-- `[self.get_runtime_batch(id) for id in ids]`
batches_of : List String → Store → Result (List Batch)
batches_of [] st = ok []
batches_of (id ∷ ids) st = do b ← get_runtime_batch id st; rest ← batches_of ids st; ok (b ∷ rest)

-- `received_at DESC, batch_id DESC`
abbrev newer_batch : Batch → Batch → Bool
newer_batch a b =
    ltb b.received_at a.received_at
    || (eqb a.received_at b.received_at && less b.batch_id a.batch_id)

unfoldable pub list_runtime_batches : ℕ → Store → Result (List Batch)
unfolding order_by batches_of
list_runtime_batches limit st =
    batches_of
      (map (λ (b : Batch). b.batch_id)
        (take (clamp_limit 1000 limit) (order_by newer_batch st.runtime_discovery_batches)))
      st

pub record EvidenceCount : Type 0 where
  pub evidence_type : String
  pub unique : ℕ
  pub observations : ℤ

pub record AgentReport : Type 0 where
  pub agent : DiscoveryAgent
  pub processes : List ProcessInstance
  pub observation_summary : List EvidenceCount

-- `SUM(observation_count)`
abbrev total : List ObservationRow → ℤ
total [] = pos 0
total (o ∷ os) = o.observation_count +ℤ total os

abbrev evidence_count : List ObservationRow → String → EvidenceCount
evidence_count rows type =
    let same = keep (λ (o : ObservationRow). o.first.evidence_type == type) rows in
    record { evidence_type = type; unique = length same; observations = total same }

-- `GROUP BY evidence_type`
unfoldable pub evidence_counts : List ObservationRow → List EvidenceCount
unfolding sorted_set
evidence_counts rows =
    map (evidence_count rows)
      (sorted_set (map (λ (o : ObservationRow). o.first.evidence_type) rows))

unfoldable pub get_runtime_agent : String → ℕ → Store → Result AgentReport
unfolding order_by evidence_counts find_discovery
get_runtime_agent id process_limit st = do
  agent ← or_raise (key_error id) (find_discovery id st)
  ok (record {
    agent = agent;
    processes = take (clamp_limit 1000 process_limit) (
        order_by (λ (a b : ProcessInstance). ltb b.last_seen a.last_seen)
          (keep (λ (p : ProcessInstance). p.agent_id == id) st.runtime_process_instances));
    observation_summary =
        evidence_counts (keep (λ (o : ObservationRow). o.agent_id == id) st.runtime_observations);
  })

pub record AgentListing : Type 0 where
  pub report : AgentReport
  pub stale : Bool

agents_of : ℕ → ℕ → List String → Store → Result (List AgentListing)
unfolding get_runtime_agent
agents_of stale_after now [] st = ok []
agents_of stale_after now (id ∷ ids) st = do
  report ← get_runtime_agent id 20 st
  rest ← agents_of stale_after now ids st
  ok (
      record { report = report; stale = ltb (report.agent.last_seen + max 1 stale_after) now }
      ∷ rest)

-- Stale if `last_seen_epoch < unix_now() - max(1.0, stale_after)`.
unfoldable pub list_runtime_agents : ℕ → ℕ → Store → Result (List AgentListing)
unfolding agents_of order_by
list_runtime_agents stale_after now st =
    agents_of stale_after now
      (map (λ (a : DiscoveryAgent). a.agent_id)
        (order_by (λ (a b : DiscoveryAgent). less a.agent_id b.agent_id)
          st.runtime_discovery_agents))
      st

-- A filter that is not given is the empty text.
abbrev matches : String → String → Bool
matches wanted actual = wanted == "" || actual == wanted

-- `last_observed_epoch DESC, observation_key`
abbrev newer_observation : ObservationRow → ObservationRow → Bool
newer_observation a b =
    ltb b.last_observed_epoch a.last_observed_epoch
    || (eqb a.last_observed_epoch b.last_observed_epoch && less a.observation_key b.observation_key)

unfoldable pub list_runtime_observations : ℕ → String → String → Store → List ObservationRow
unfolding order_by
list_runtime_observations limit agent asset st = take (clamp_limit 5000 limit) (
    order_by newer_observation (
      keep
        (λ (o : ObservationRow).
          matches agent o.agent_id && matches asset o.first.workload_asset_id)
        st.runtime_observations))

pub record AssetReport : Type 0 where
  pub asset : CryptoAsset
  pub evidence : List Json
  pub assessments : List Assessment
  pub migration_plans : List PlanRow

abbrev is_asset : String → Option String → Bool
is_asset id none = false
is_asset id (some asset) = asset == id

-- `scan_id DESC, finding_id`
abbrev later_finding : ScanFinding → ScanFinding → Bool
later_finding a b =
    less b.scan_id a.scan_id || (a.scan_id == b.scan_id && less a.finding_id b.finding_id)

unfoldable pub get_crypto_asset : String → ℕ → Store → Result AssetReport
unfolding order_by find_asset
get_crypto_asset id evidence_limit st = do
  asset ← or_raise (key_error id) (find_asset id st)
  ok (record {
    asset = asset;
    evidence =
        map (λ (f : ScanFinding). f.payload)
          (take (clamp_limit 5000 evidence_limit) (
            order_by later_finding
              (keep (λ (f : ScanFinding). is_asset id f.asset_id) st.scan_findings)));
    assessments =
        order_by (λ (a b : Assessment). ltb b.created_at a.created_at)
          (keep (λ (a : Assessment). a.asset_id == id) st.asset_assessments);
    migration_plans =
        order_by (λ (a b : PlanRow). ltb b.updated_at a.updated_at)
          (keep (λ (p : PlanRow). p.asset_id == id) st.migration_plans);
  })

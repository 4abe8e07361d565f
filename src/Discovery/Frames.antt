-- ===== src/Discovery/Frames.antt =====
-- The rows of a batch and of its agent through the transactions of `ingest_runtime_report` in
-- manager/config_store.py.
use pq_migration_gateway.Prelude.{
  ◌≡◌, refl, subst, ℕ, String, true, ◌||◌, List, [], ◌∷◌, Option, some, arith, ◌==◌, is_some,
  Option-cases, Bool-cases, inl, inr, map,
}
use pq_migration_gateway.Result.{Error, Result, ok, Result-cases, ok-injective}
use pq_migration_gateway.Json.{Json, Items, Fields, arr, obj, get_or}
use pq_migration_gateway.Store.Rows.{find_row, delete_rows}
use pq_migration_gateway.Store.Tables.{
  DiscoveryStatus, DiscoveryAgent, BatchStatus, Batch, Store, CryptoAsset, ScanFinding,
}
use pq_migration_gateway.Store.Scans.{update_scan_job, scan_status_of, find_scan}
use pq_migration_gateway.Store.Releases.{audit_conn, audit_error}
use pq_migration_gateway.Store.Inventory.{
  items_of, objects, dict_of, insert_findings, store_inventory, ingest_scan_inventory,
}
use pq_migration_gateway.Report.Types.{Report, Observation, Summary}
use pq_migration_gateway.Discovery.Writes.{
  find_batch, find_discovery, has_key, has_parents, write_observations,
}

-- A transaction that does not write the batches and the agents of runtime discovery.
abbrev pub Same : Store → Store → Type 0
Same st st' =
    (st'.runtime_discovery_batches ≡ st.runtime_discovery_batches)
    × (st'.runtime_discovery_agents ≡ st.runtime_discovery_agents)

pub update_scan_job-Same :
    (id status : String) (summary : Option Json) (output : String) (error : Option Error) (now : ℕ)
    (st : Store) {st' : Store}
    → update_scan_job id status summary output error now st ≡ ok st'
    → Same st st'
unfolding update_scan_job
update_scan_job-Same id status summary output error now st e =
    elim (Option-cases (scan_status_of status)) [
      | inl e₁ ↦ absurd (ground (arith, e₁))
      | inr (s, e₁) ↦ elim (Bool-cases (is_some (find_scan id st))) [
        | inr missing ↦ absurd (ground (arith, e₁, missing))
        | inl found ↦ subst (Same st) (ok-injective (rw (e₁, found) at e)) (refl, refl)
      ]
    ]

pub write_observations-Same :
    (batch agent : String) (now : ℕ) (os : List Observation) (st : Store) {st' : Store}
    → write_observations batch agent now os st ≡ ok st'
    → Same st st'
unfolding write_observations
write_observations-Same batch agent now [] st e = subst (Same st) (ok-injective e) (refl, refl)
write_observations-Same batch agent now (o ∷ os) st e =
    elim (Bool-cases (
      is_some (find_row (has_key o.observation_key) st.runtime_observations) || has_parents o st)) [
        | inr orphan ↦ absurd (ground (arith, orphan))
        | inl linked ↦ write_observations-Same batch agent now os _ (rw linked at e)
      ]

store_inventory-Same :
    (python_str : Json → String) (scan : String) (now : ℕ) (assets : List CryptoAsset)
    (inventory : Fields) (actor : String) (st : Store) {st' : Store}
    → store_inventory python_str scan now assets inventory actor st ≡ ok st'
    → Same st st'
unfolding store_inventory audit_conn audit_error
store_inventory-Same python_str scan now assets inventory actor st e =
    elim (Bool-cases (is_some (find_scan scan st))) [
      | inr missing ↦ absurd (ground (arith, missing))
      | inl there ↦ elim (Result-cases (items_of (get_or "findings" (arr Items.nil) inventory))) [
        | inr (_, e₁) ↦ absurd (ground (arith, there, e₁))
        | inl (found, e₁) ↦ elim (Result-cases (inserted found)) [
          | inr (_, e₂) ↦ absurd (ground (arith, there, e₁, e₂))
          | inl (rows, e₂) ↦
              elim (Result-cases
                (dict_of python_str scan now (get_or "summary" (obj Fields.end) inventory))) [
                  | inr (_, e₃) ↦ absurd (ground (arith, there, e₁, e₂, e₃))
                  | inl (given, e₃) ↦
                      subst (Same st) (ok-injective (rw (there, e₁, e₂, e₃) at e)) (refl, refl)
                ]
        ]
      ]
    ]
  where
    inserted : List Json → Result (List ScanFinding)
    inserted found =
        insert_findings python_str scan now (map (λ a. a.asset_id) assets) (objects found)
          (delete_rows (λ f. f.scan_id == scan) st.scan_findings)

pub ingest_scan_inventory-Same :
    (python_str : Json → String) (scan : String) (now : ℕ) (inventory : Fields) (actor : String)
    (st : Store) {st' : Store}
    → ingest_scan_inventory python_str scan now inventory actor st ≡ ok st'
    → Same st st'
unfolding ingest_scan_inventory
ingest_scan_inventory-Same python_str scan now inventory actor st e =
    elim (Result-cases (items_of (get_or "evidence" (arr Items.nil) inventory))) [
      | inr (_, e₁) ↦ absurd (ground (arith, e₁))
      | inl (evidence, e₁) ↦
          elim (Result-cases (items_of (get_or "assets" (arr Items.nil) inventory))) [
            | inr (_, e₂) ↦ absurd (ground (arith, e₁, e₂))
            | inl (concrete, e₂) ↦
                elim (Result-cases (items_of (get_or "artifacts" (arr Items.nil) inventory))) [
                  | inr (_, e₃) ↦ absurd (ground (arith, e₁, e₂, e₃))
                  | inl (artifacts, e₃) ↦
                      store_inventory-Same python_str scan now _ inventory actor st
                        (rw (e₁, e₂, e₃) at e)
                ]
          ]
    ]

-- The batch of a report and its agent are there, and the batch is that agent's.
abbrev pub Present : (BatchStatus → Summary → DiscoveryStatus → Type 0) → Report → Store → Type 0
Present P r st =
    (b : Batch) × (a : DiscoveryAgent) × (find_batch r.batch_id st ≡ some b)
    × ((b.agent_id == r.agent.id) ≡ true)
    × (find_discovery r.agent.id st ≡ some a)
    × P b.status b.summary a.status

abbrev pub AnyStatus : BatchStatus → Summary → DiscoveryStatus → Type 0
AnyStatus _ _ _ = Unit {0}

pub Same-Present :
    (P : BatchStatus → Summary → DiscoveryStatus → Type 0) (r : Report) (st st' : Store)
    → Same st st'
    → Present P r st
    → Present P r st'
unfolding find_batch find_discovery
Same-Present P r st st' (batches, agents) (b, a, found, own, known, h) =
    (b, a, rw batches found, own, rw agents known, h)

-- ===== src/Discovery/Linked.antt =====
-- The rows that the observations of a runtime report refer to: the process instances that
-- `ingest_runtime_report` of manager/config_store.py writes, and the assets of the workloads.
use pq_migration_gateway.Prelude.{
  ◌≡◌, refl, ℕ, String, true, false, List, [], ◌∷◌, map, arith, ◌==◌, eq_iff, eq_refl, is_some, Any,
  Bool-cases, inl, inr, subst,
}
use pq_migration_gateway.Result.{ok, ok-injective, require-then}
use pq_migration_gateway.Json.{Json, Fields, get, get_or, find}
use pq_migration_gateway.Store.Rows.{find_row, is_some-upsert, is_some-upsert_self}
use pq_migration_gateway.Store.Tables.{ProcessInstance, CryptoAsset}
use pq_migration_gateway.Store.Scans.{has_asset}
use pq_migration_gateway.Store.Inventory.{objects, artifact_assets, upsert_assets}
use pq_migration_gateway.Report.Types.{RuntimeProcess, Report}
use pq_migration_gateway.Report.Inventory.{
  Artifact, has_artifact, new_artifact, extend_artifact, artifacts_from, artifact_json,
}
use pq_migration_gateway.Discovery.Writes.{has_instance, change_instance, can_bind, write_processes}

module _ (agent : String) (now : ℕ) (id : String) where
  written : RuntimeProcess → ProcessInstance
  written p = record { agent_id = agent; process = p; first_seen = now; last_seen = now }

  write_processes-keeps :
      (ps : List RuntimeProcess) (table table' : List ProcessInstance)
      → write_processes agent now ps table ≡ ok table'
      → is_some (find_row (has_instance id) table) ≡ true
      → is_some (find_row (has_instance id) table') ≡ true
  unfolding write_processes
  write_processes-keeps [] table table' e there =
      subst (λ t. is_some (find_row (has_instance id) t) ≡ true) (ok-injective e) there
  write_processes-keeps (p ∷ ps) table table' e there =
      write_processes-keeps ps _ table' (require-then (can_bind p) _ _ table' e).1 (
        is_some-upsert (has_instance p.process_instance_id) (change_instance p now) _
          (has_instance id) (λ r _ h. h) table there)

  pub write_processes-has :
      (ps : List RuntimeProcess) (table table' : List ProcessInstance)
      → write_processes agent now ps table ≡ ok table'
      → Any (λ (p : RuntimeProcess). id ≡ p.process_instance_id) ps
      → is_some (find_row (has_instance id) table') ≡ true
  unfolding write_processes
  write_processes-has [] table table' e h = elim h [ ]
  write_processes-has (p ∷ ps) table table' e (inl same) =
      write_processes-keeps ps _ table' (require-then (can_bind p) _ _ table' e).1 (
        is_some-upsert_self (has_instance p.process_instance_id) (change_instance p now) _
          (has_instance id) (λ r h. rw same h) (rw same (eq_refl p.process_instance_id)) table)
  write_processes-has (p ∷ ps) table table' e (inr h) =
      write_processes-has ps _ table' (require-then (can_bind p) _ _ table' e).1 h

module _ (id : String) where
  artifacts_from-keeps :
      (ps : List RuntimeProcess) (artifacts : List Artifact)
      → is_some (find_row (has_artifact id) artifacts) ≡ true
      → is_some (find_row (has_artifact id) (artifacts_from ps artifacts)) ≡ true
  unfolding artifacts_from
  artifacts_from-keeps [] artifacts e = e
  artifacts_from-keeps (p ∷ ps) artifacts e = artifacts_from-keeps ps _ (
      is_some-upsert (has_artifact p.workload_asset_id) (extend_artifact p)
        (extend_artifact p (new_artifact p)) (has_artifact id) (λ r _ h. h) artifacts e)

  pub artifacts_from-has :
      (ps : List RuntimeProcess) (artifacts : List Artifact)
      → Any (λ (p : RuntimeProcess). id ≡ p.workload_asset_id) ps
      → is_some (find_row (has_artifact id) (artifacts_from ps artifacts)) ≡ true
  unfolding artifacts_from
  artifacts_from-has [] artifacts h = elim h [ ]
  artifacts_from-has (p ∷ ps) artifacts (inl e) = artifacts_from-keeps ps _ (
      is_some-upsert_self (has_artifact p.workload_asset_id) (extend_artifact p)
        (extend_artifact p (new_artifact p)) (has_artifact id) (λ r h. rw e h)
        (rw e (eq_refl p.workload_asset_id)) artifacts)
  artifacts_from-has (p ∷ ps) artifacts (inr h) = artifacts_from-has ps _ h

  module _ (python_str : Json → String) (scan : String) (now : ℕ) where
    upsert_assets-keeps :
        (assets table : List CryptoAsset)
        → is_some (find_row (has_asset id) table) ≡ true
        → is_some (find_row (has_asset id) (upsert_assets python_str scan now assets table)) ≡ true
    unfolding upsert_assets
    upsert_assets-keeps [] table e = e
    upsert_assets-keeps (a ∷ rest) table e = upsert_assets-keeps rest _ (
        is_some-upsert (has_asset a.asset_id) _ a (has_asset id)
          (λ r mine here. ground (
            arith,
            mine,
            here,
            eq_iff r.asset_id a.asset_id,
            eq_iff r.asset_id id,
            eq_iff a.asset_id id,
          ))
          table e)

    pub upsert_assets-has :
        (assets table : List CryptoAsset)
        → is_some (find_row (has_asset id) assets) ≡ true
        → is_some (find_row (has_asset id) (upsert_assets python_str scan now assets table)) ≡ true
    unfolding upsert_assets find_row
    upsert_assets-has [] table e = cc
    upsert_assets-has (a ∷ rest) table e = elim (Bool-cases (a.asset_id == id)) [
      | inl here ↦
          upsert_assets-keeps rest _
            (is_some-upsert_self (has_asset a.asset_id) _ a (has_asset id) (λ r _. here) here table)
      | inr other ↦ upsert_assets-has rest _ (ground (arith, other))
    ]

    pub artifact_assets-has :
        (r : Report) (evidence : List Fields) (artifacts : List Artifact)
        → (id == "") ≡ false
        → is_some (find_row (has_artifact id) artifacts) ≡ true
        → is_some (
            find_row (has_asset id) (
              artifact_assets python_str scan now evidence
                (objects (map (artifact_json r) artifacts))))
          ≡ true
    unfolding artifact_assets artifact_json get get_or find find_row
    artifact_assets-has r evidence [] named e = cc
    artifact_assets-has r evidence (a ∷ rest) named e = elim (Bool-cases (a.artifact_id == id)) [
      | inl here ↦
          let full : (a.artifact_id == "") ≡ false = rw ((eq_iff a.artifact_id id).0 here) named in
          rw (full, here) refl
      | inr other ↦
          let later = artifact_assets-has r evidence rest named (rw other at e) in
          elim (Bool-cases (a.artifact_id == "")) [
            | inl blank ↦ rw blank later
            | inr full ↦ rw (full, other) later
          ]
    ]

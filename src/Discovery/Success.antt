-- ===== src/Discovery/Success.antt =====
-- `ingest_runtime_report` of manager/config_store.py takes every report that
-- `normalize_runtime_report` of manager/runtime_ingest.py returns, if the metadata of its observations
-- are objects and the numbers of its processes fit into a column of the database.
use pq_migration_gateway.Prelude.{
  ◌≡◌, refl, sym, subst, ◌∙◌, ℕ, String, true, false, List, [], ◌∷◌, Option, none, some, ◌==◌,
  eq_refl, is_some, All, All-mono, Any-mono, All-Any, Bool-cases, inl, inr,
}
use pq_migration_gateway.Result.{Error, ok}
use pq_migration_gateway.Json.{Json}
use pq_migration_gateway.Exec.{◌>>=◌}
use pq_migration_gateway.Exec.Ends.{
  Ends, >>=-Ends, catch-Ends, commit-returns, query-returns, Ends-ok,
}
use pq_migration_gateway.Store.Rows.{find_row, is_some-update}
use pq_migration_gateway.Store.Tables.{
  ScanStatus, running, Batch, CryptoAsset, ProcessInstance, ScanJob, Store,
}
use pq_migration_gateway.Store.Scans.{
  has_scan, find_scan, find_asset, update_scan_job, scan_status_of,
}
use pq_migration_gateway.Store.Inventory.{upsert_assets}
use pq_migration_gateway.Report.Types.{RuntimeProcess, Observation, Report}
use pq_migration_gateway.Report.Processes.{Host, workload_id}
use pq_migration_gateway.Report.Inventory.{runtime_inventory}
use pq_migration_gateway.Report.Normal.{IsProcess, IsFrom, IsObserved, stable_id_nonempty}
use pq_migration_gateway.Report.Accepted.{IsNormal, normalize_runtime_report-IsNormal}
use pq_migration_gateway.Report.Normalize.{normalize_runtime_report}
use pq_migration_gateway.Discovery.Writes.{
  can_bind, has_key, has_parents, find_batch, check_batch, runtime_scan_id, add_scan, receive_batch,
  write_processes, write_observations, write_runtime,
}
use pq_migration_gateway.Discovery.Ingest.{persist, fail_report, ingest_runtime_report}
use pq_migration_gateway.Discovery.Frames.{Present, AnyStatus}
use pq_migration_gateway.Discovery.Outcome.{
  Ingested, Returned, persist-Ends, receive_batch-Present, take_in-Ends, ingest_report-new,
}
use pq_migration_gateway.Discovery.Linked.{
  write_processes-has, artifacts_from-has, artifact_assets-has, upsert_assets-has,
}
use pq_migration_gateway.Discovery.Taken.{
  HasObject, assets_of, runtime_inventory-returns, ingest_scan_inventory-returns,
}

-- The numbers of a process that the database can hold, which are 64 bits wide.
abbrev pub CanBind : RuntimeProcess → Type 0
CanBind p = can_bind p ≡ true

pub update_scan_job-returns :
    (id name : String) (status : ScanStatus) (error : Option Error) (now : ℕ) (st : Store)
    → scan_status_of name ≡ some status
    → is_some (find_scan id st) ≡ true
    → (st' : Store) × (update_scan_job id name none "" error now st ≡ ok st')
      × (is_some (find_scan id st') ≡ true)
unfolding update_scan_job find_scan
update_scan_job-returns id name status error now st named there =
    rw (named, there)
      (_, refl, is_some-update (has_scan id) (has_scan id) _ (λ r h. h) st.scan_jobs there)

write_processes-returns :
    (agent : String) (now : ℕ) (ps : List RuntimeProcess) (table : List ProcessInstance)
    → All CanBind ps
    → (table' : List ProcessInstance) × (write_processes agent now ps table ≡ ok table')
unfolding write_processes
write_processes-returns agent now [] table all = (table, refl)
write_processes-returns agent now (p ∷ ps) table (fits, all) =
    rw fits (write_processes-returns agent now ps _ all)

write_observations-returns :
    (batch agent : String) (now : ℕ) (os : List Observation) (st : Store)
    → All (λ o. has_parents o st ≡ true) os
    → (st' : Store) × (write_observations batch agent now os st ≡ ok st')
unfolding write_observations find_asset
write_observations-returns batch agent now [] st all = (st, refl)
write_observations-returns batch agent now (o ∷ os) st (parents, all) =
    elim (Bool-cases (is_some (find_row (has_key o.observation_key) st.runtime_observations))) [
      | inl known ↦ rw known (write_observations-returns batch agent now os _ all)
      | inr new ↦ rw (new, parents) (write_observations-returns batch agent now os _ all)
    ]

pub add_scan-has :
    (job : ScanJob) (jobs : List ScanJob)
    → is_some (find_row (has_scan job.scan_id) (add_scan job jobs)) ≡ true
unfolding find_row
add_scan-has job jobs = elim (Bool-cases (is_some (find_row (has_scan job.scan_id) jobs))) [
  | inl known ↦ rw known known
  | inr new ↦ rw (new, eq_refl job.scan_id) refl
]

module _ (host : Host) (r : Report) (normal : IsNormal host r) where
  workload_nonempty :
      (o : Observation) → IsObserved r.processes o → (o.workload_asset_id == "") ≡ false
  unfolding workload_id
  workload_nonempty o seen =
      All-Any (IsProcess host r.agent) (IsFrom o)
        (λ p made from.
          rw (from.same_workload, made.placed) (stable_id_nonempty host "runtime-asset" _))
        r.processes normal.all_processes seen.linked

  module _ (scan actor : String) (now : ℕ) where
    -- What the ingestion of the inventory leaves in the table of assets.
    abbrev Stocked : Store → Type 0
    Stocked st =
        (table : List CryptoAsset) × (st.crypto_assets
          ≡ upsert_assets host.python_str scan now (assets_of host.python_str scan now actor r)
              table)

    abbrev with_processes : Store → List ProcessInstance → Store
    with_processes st instances = record st { runtime_process_instances = instances }

    -- The rows that an observation refers to are there once the assets and processes are written.
    parents_written :
        (st : Store) (instances : List ProcessInstance) (o : Observation)
        → Stocked st
        → write_processes r.agent.id now r.processes st.runtime_process_instances ≡ ok instances
        → IsObserved r.processes o
        → has_parents o (with_processes st instances) ≡ true
    unfolding find_asset
    parents_written st instances o (table, e) wrote seen =
        let instance =
          write_processes-has r.agent.id now o.process_instance_id r.processes
            st.runtime_process_instances instances wrote
            (Any-mono (IsFrom o) _ (λ p from. from.same_instance) r.processes seen.linked) in
        let asset =
          upsert_assets-has o.workload_asset_id host.python_str scan now
            (assets_of host.python_str scan now actor r) table
            (artifact_assets-has o.workload_asset_id host.python_str scan now r _ _
              (workload_nonempty o seen)
              (artifacts_from-has o.workload_asset_id r.processes []
                (Any-mono (IsFrom o) _ (λ p from. from.same_workload) r.processes seen.linked))) in
        rw (instance, e) asset

    write_runtime-returns :
        (st : Store)
        → Stocked st
        → All CanBind r.processes
        → (st' : Store) × (write_runtime host r actor now st ≡ ok st')
    unfolding write_runtime
    write_runtime-returns st stocked fit =
        let (instances, wrote) =
          write_processes-returns r.agent.id now r.processes st.runtime_process_instances fit in
        let (st', e) =
          write_observations-returns r.batch_id r.agent.id now r.observations
            (with_processes st instances)
            (All-mono (IsObserved r.processes) _ (λ o. parents_written st instances o stocked wrote)
              r.observations normal.all_observed) in
        rw (wrote, e) (_, refl)

  module _ (objects : All HasObject r.observations) (fit : All CanBind r.processes) (now : ℕ)
      (actor : String) where
    abbrev scan : String
    scan = runtime_scan_id host r

    abbrev Never : Store → Type 0
    Never _ = ⊥

    persist-returns :
        (st : Store)
        → is_some (find_scan scan st) ≡ true
        → Ends (λ _ _. Unit {0}) Never (persist host now actor r st)
    unfolding persist scan_status_of
    persist-returns st there =
        let (st₁, e₁, there₁) =
          update_scan_job-returns scan "RUNNING" running none now st refl there in
        let (inventory, made) =
          runtime_inventory-returns host.python_str scan now actor r objects in
        let (st₂, e₂, stocked) =
          ingest_scan_inventory-returns host.python_str scan now actor r inventory st₁ objects
            normal.all_observed normal.fresh there₁ made in
        let (st₃, e₃) = write_runtime-returns scan actor now st₂ (st₁.crypto_assets, stocked) fit in
        >>=-Ends (λ (_ : Unit {0}) s. s ≡ st₁) _ _ _ _ st
          (commit-returns (λ _ s. s ≡ st₁) Never _ st st₁ e₁ refl)
          (λ _ s e. rw e (
            >>=-Ends (λ i s'. (i ≡ inventory) × (s' ≡ st₁)) _ _ _ _ st₁
              (query-returns (λ i s'. (i ≡ inventory) × (s' ≡ st₁)) Never (λ _. runtime_inventory r)
                st₁ inventory made (refl, refl))
              (λ i s' (ei, es).
                rw (ei, es)
                  (>>=-Ends (λ (_ : Unit {0}) s''. s'' ≡ st₂) _ _ _ _ st₁
                    (commit-returns (λ _ s''. s'' ≡ st₂) Never _ st₁ st₂ e₂ refl)
                    (λ _ s'' e''. rw e'' (
                      commit-returns (λ _ _. Unit {0}) Never (write_runtime host r actor now) st₂
                        st₃ e₃ tt))))))

    receive_batch-scan :
        (st : Store) → is_some (find_scan scan (receive_batch host r actor now st)) ≡ true
    unfolding receive_batch find_scan
    receive_batch-scan st = add_scan-has _ st.scan_jobs

    -- Both facts on the body of the `try`: it returns, and the batch is INGESTED.
    persist_ingests :
        (st : Store)
        → Present AnyStatus r st
        → is_some (find_scan scan st) ≡ true
        → Ends (λ _. Present (Ingested r) r) Never (persist host now actor r st)
    persist_ingests st there known =
        let (_, _, e, h) =
          Ends-ok (λ (_ : Unit {0}). Present (Ingested r) r) (λ _ _. Unit {0}) (Present AnyStatus r)
            (persist host now actor r st) (persist-Ends host now actor r st there)
            (persist-returns st known) in
        subst (Ends (λ _. Present (Ingested r) r) Never) (sym e) h

-- A report that normalize_runtime_report returned, whose observations have objects as metadata, whose
-- processes have numbers that fit into 64 bits, and whose batch is not known, or is this agent's and
-- not INGESTED, is always taken: the method returns the stored batch, which is INGESTED with the
-- report's summary, and the agent is HEALTHY.
pub ingest_report-returns :
    (host : Host) (payload : Json) (r : Report) (now : ℕ) (actor : String) (st : Store)
    → normalize_runtime_report host payload ≡ ok r
    → All HasObject r.observations
    → All CanBind r.processes
    → check_batch r (find_batch r.batch_id st) ≡ ok false
    → (b : Batch) × (st' : Store) × (ingest_runtime_report host now actor payload st ≡ (ok b, st'))
      × Returned host now actor r b st'
unfolding ingest_runtime_report ◌>>=◌
ingest_report-returns host payload r now actor st n objects fit e =
    let normal = normalize_runtime_report-IsNormal host payload r n in
    let st₁ = receive_batch host r actor now st in
    let P = λ (_ : Unit {0}). Present (Ingested r) r in
    let ends =
      take_in-Ends host now actor r (λ _. ⊥) st
        (catch-Ends P (λ _. ⊥) (λ _. ⊥) (persist host now actor r) (fail_report host now actor r)
          st₁
          (persist_ingests host r normal objects fit now actor st₁
            (receive_batch-Present host now actor r st e)
            (receive_batch-scan host r normal objects fit now actor st))
          (λ x s h. elim h [ ])) in
    let (b, st', made, returned) =
      Ends-ok (Returned host now actor r) (Returned host now actor r) (λ _. ⊥) _ ends ends in
    (b, st', rw n (ingest_report-new host now actor r st e ∙ made), returned)

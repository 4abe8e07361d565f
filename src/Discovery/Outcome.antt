-- ===== src/Discovery/Outcome.antt =====
-- `ingest_runtime_report` of manager/config_store.py ends with a batch that is INGESTED or FAILED.
use pq_migration_gateway.Prelude.{
  ◌≡◌, refl, subst, ℕ, String, Bool, true, false, none, some, arith, ◌==◌, Option-cases, inl, inr,
  eq_refl,
}
use pq_migration_gateway.Result.{Error, ok, >>=-eq-ok, ok-injective}
use pq_migration_gateway.Json.{Fields}
use pq_migration_gateway.Exec.{◌>>=◌, catch}
use pq_migration_gateway.Exec.Ends.{
  Ends, >>=-Ends, catch-Ends, commit-Ends, query-Ends, query-returns,
}
use pq_migration_gateway.Store.Rows.{find_row, find_row-upsert_self, find_row-update_self}
use pq_migration_gateway.Store.Tables.{
  DiscoveryStatus, healthy, degraded, BatchStatus, received, ingested, failed, Batch, Store,
}
use pq_migration_gateway.Store.Releases.{audit_conn, audit_error}
use pq_migration_gateway.Store.Scans.{update_scan_job}
use pq_migration_gateway.Store.Metrics.{set_known_metric, increment_metric}
use pq_migration_gateway.Store.Inventory.{ingest_scan_inventory}
use pq_migration_gateway.Report.Types.{Report, Summary}
use pq_migration_gateway.Report.Processes.{Host}
use pq_migration_gateway.Report.Inventory.{runtime_inventory}
use pq_migration_gateway.Discovery.Writes.{
  has_batch, find_batch, get_runtime_batch, has_discovery, find_discovery, check_batch,
  discovery_row, new_batch, receive_batch, write_processes, write_observations, finish_batch,
  write_runtime, fail_batch, report_metrics,
}
use pq_migration_gateway.Discovery.Ingest.{
  persist, fail_report, take_in, unless_done, ingest_report,
}
use pq_migration_gateway.Discovery.Frames.{
  Same, Present, AnyStatus, Same-Present, update_scan_job-Same, ingest_scan_inventory-Same,
  write_observations-Same,
}

-- The batch is INGESTED with the summary of the report, and its agent is HEALTHY.
abbrev pub Ingested : Report → BatchStatus → Summary → DiscoveryStatus → Type 0
Ingested r b s a = (b ≡ ingested) × (s ≡ r.summary) × (a ≡ healthy)

-- The batch is FAILED, and its agent is DEGRADED.
abbrev pub Failed : BatchStatus → Summary → DiscoveryStatus → Type 0
Failed b s a = (b ≡ failed) × (a ≡ degraded)

pub get_runtime_batch-found :
    (id : String) (st : Store) {b : Batch}
    → find_batch id st ≡ some b
    → get_runtime_batch id st ≡ ok b
unfolding get_runtime_batch
get_runtime_batch-found id st e = rw e

pub check_batch-own :
    (r : Report) (b : Batch) {done : Bool}
    → check_batch r (some b) ≡ ok done
    → (b.agent_id == r.agent.id) ≡ true
unfolding check_batch
check_batch-own r b e = ground (arith, e)

module _ (host : Host) (now : ℕ) (actor : String) (r : Report) where
  pub receive_batch-Present :
      (st : Store) {done : Bool}
      → check_batch r (find_batch r.batch_id st) ≡ ok done
      → Present AnyStatus r (receive_batch host r actor now st)
  unfolding receive_batch find_batch find_discovery
  receive_batch-Present st e =
      let agent =
        find_row-upsert_self (has_discovery r.agent.id)
          (λ old. record (discovery_row r.agent now) { first_seen = old.first_seen })
          (discovery_row r.agent now) (λ x _. eq_refl r.agent.id) (eq_refl r.agent.id)
          st.runtime_discovery_agents in
      let batch =
        find_row-upsert_self (has_batch r.batch_id)
          (λ old. record old { status = received; summary = r.summary; error = none })
          (new_batch host r now) (λ x h. h) (eq_refl r.batch_id) st.runtime_discovery_batches in
      elim (Option-cases (find_row (has_batch r.batch_id) st.runtime_discovery_batches)) [
        | inl new ↦ (_, _, rw new at batch, eq_refl r.agent.id, agent, tt)
        | inr (b, old) ↦ (_, _, rw old at batch, check_batch-own r b (rw old at e), agent, tt)
      ]

  finish_batch-Present :
      (st : Store) → Present AnyStatus r st → Present (Ingested r) r (finish_batch r now st)
  unfolding finish_batch find_batch find_discovery
  finish_batch-Present st (b, a, found, own, known, h) = (
    _,
    _,
    find_row-update_self (has_batch r.batch_id) _ b (λ x e. e) st.runtime_discovery_batches found,
    own,
    find_row-update_self (has_discovery r.agent.id) _ a (λ x e. e) st.runtime_discovery_agents
        known,
    (refl, refl, refl),
  )

  fail_batch-Present :
      (e : Error) (st : Store) → Present AnyStatus r st → Present Failed r (fail_batch r e now st)
  unfolding fail_batch find_batch find_discovery
  fail_batch-Present e st (b, a, found, own, known, h) = (
    _,
    _,
    find_row-update_self (has_batch r.batch_id) _ b (λ x e. e) st.runtime_discovery_batches found,
    own,
    find_row-update_self (has_discovery r.agent.id) _ a (λ x e. e) st.runtime_discovery_agents
        known,
    (refl, refl),
  )

  report_metrics-Same : (st : Store) → Same st (report_metrics r now st)
  unfolding report_metrics set_known_metric increment_metric
  report_metrics-Same st = (refl, refl)

  write_runtime-Present :
      (st : Store) {st' : Store}
      → write_runtime host r actor now st ≡ ok st'
      → Present AnyStatus r st
      → Present (Ingested r) r st'
  unfolding write_runtime audit_conn audit_error
  write_runtime-Present st e there =
      let (instances, _, e₁) =
        >>=-eq-ok (write_processes r.agent.id now r.processes st.runtime_process_instances) _ e in
      let st₁ : Store = record st { runtime_process_instances = instances } in
      let (written, wrote, e₂) =
        >>=-eq-ok (write_observations r.batch_id r.agent.id now r.observations st₁) _ e₁ in
      let same = write_observations-Same r.batch_id r.agent.id now r.observations st₁ wrote in
      let finished =
        finish_batch-Present written (Same-Present AnyStatus r st written same there) in
      subst (Present (Ingested r) r) (ok-injective e₂)
        (Same-Present (Ingested r) r (finish_batch r now written) _ (refl, refl) finished)

  pub persist-Ends :
      (st : Store)
      → Present AnyStatus r st
      → Ends (λ _. Present (Ingested r) r) (Present AnyStatus r) (persist host now actor r st)
  unfolding persist
  persist-Ends st there =
      let P = λ (_ : Unit {0}). Present AnyStatus r in
      >>=-Ends P _ _ _ _ st
        (commit-Ends P (Present AnyStatus r) (update_scan_job _ "RUNNING" none "" none now) st
          (λ st' e. Same-Present AnyStatus r st st' (update_scan_job-Same _ _ _ _ _ now st e) there)
          there)
        (λ _ st₁ there₁.
          >>=-Ends (λ (_ : Fields). Present AnyStatus r) _ _ _ _ st₁
            (query-Ends (λ _. Present AnyStatus r) (Present AnyStatus r) (λ _. runtime_inventory r)
              st₁ (λ _ _. there₁) there₁)
            (λ inventory st₂ there₂.
              >>=-Ends P _ _ _ _ st₂
                (commit-Ends P (Present AnyStatus r)
                  (ingest_scan_inventory host.python_str _ now inventory actor) st₂
                  (λ st' e.
                    Same-Present AnyStatus r st₂ st'
                      (ingest_scan_inventory-Same _ _ now inventory actor st₂ e) there₂)
                  there₂)
                (λ _ st₃ there₃.
                  commit-Ends (λ _. Present (Ingested r) r) (Present AnyStatus r)
                    (write_runtime host r actor now) st₃
                    (λ st' e. write_runtime-Present st₃ e there₃) there₃)))

  -- The handler always raises.
  fail_report-Ends :
      (e : Error) (st : Store)
      → Present AnyStatus r st
      → Ends
          (λ (_ : Unit {0}). Present (Ingested r) r)
          (Present Failed r)
          (fail_report host now actor r e st)
  unfolding fail_report
  fail_report-Ends e st there =
      let failed_there = fail_batch-Present e st there in
      let P = λ (_ : Unit {0}). Present Failed r in
      >>=-Ends P _ _ _ _ st failed_there (λ _ st₁ there₁.
        >>=-Ends P _ _ _ _ st₁
          (commit-Ends P (Present Failed r) (update_scan_job _ "FAILED" none "" (some e) now) st₁
            (λ st' q.
              Same-Present Failed r st₁ st' (update_scan_job-Same _ _ _ _ _ now st₁ q) there₁)
            there₁)
          (λ _ st₂ there₂. there₂))

  -- The batch that is returned is the stored one.
  abbrev pub Returned : Batch → Store → Type 0
  Returned b st = (find_batch r.batch_id st ≡ some b) × Present (Ingested r) r st

  -- What follows the `try` with its handler.
  pub take_in-Ends :
      (Q : Store → Type 0) (st : Store)
      → Ends
          (λ (_ : Unit {0}). Present (Ingested r) r)
          Q
          (catch
            (persist host now actor r)
            (fail_report host now actor r)
            (receive_batch host r actor now st))
      → Ends Returned Q (take_in host now actor r st)
  unfolding take_in
  take_in-Ends Q st tried =
      let P = λ (_ : Unit {0}). Present (Ingested r) r in
      let st₁ = receive_batch host r actor now st in
      >>=-Ends (λ (_ : Unit {0}) s. s ≡ st₁) _ Q _ _ st refl
        (λ _ s e. rw e (
          >>=-Ends P _ Q _ _ st₁ tried (λ _ st₂ there₂.
            >>=-Ends P _ Q _ _ st₂
              (Same-Present (Ingested r) r st₂ _ (report_metrics-Same st₂) there₂)
              (λ _ st₃ there₃.
                query-returns Returned Q (get_runtime_batch r.batch_id) st₃ there₃.0
                  (get_runtime_batch-found r.batch_id st₃ there₃.2) (there₃.2, there₃)))))

  pub ingest_report-new :
      (st : Store)
      → check_batch r (find_batch r.batch_id st) ≡ ok false
      → ingest_report host now actor r st ≡ take_in host now actor r st
  unfolding ingest_report unless_done ◌>>=◌
  ingest_report-new st e = rw e refl

-- A report whose batch is new, or FAILED, or was interrupted, of the same agent: either the batch
-- ends as INGESTED with the report's summary, its agent is HEALTHY, and that batch is returned; or an
-- exception is raised, the batch is FAILED and its agent DEGRADED.
pub ingest_report-Ends :
    (host : Host) (now : ℕ) (actor : String) (r : Report) (st : Store)
    → check_batch r (find_batch r.batch_id st) ≡ ok false
    → Ends (Returned host now actor r) (Present Failed r) (ingest_report host now actor r st)
ingest_report-Ends host now actor r st e =
    let st₁ = receive_batch host r actor now st in
    rw (ingest_report-new host now actor r st e) (
      take_in-Ends host now actor r (Present Failed r) st (
        catch-Ends (λ (_ : Unit {0}). Present (Ingested r) r) (Present Failed r)
          (Present AnyStatus r) (persist host now actor r) (fail_report host now actor r) st₁
          (persist-Ends host now actor r st₁ (receive_batch-Present host now actor r st e))
          (λ x s there. fail_report-Ends host now actor r x s there)))

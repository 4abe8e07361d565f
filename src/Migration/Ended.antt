-- ===== src/Migration/Ended.antt =====
-- A scan job that `_run` of manager/scan_orchestrator.py has run.
use pq_migration_gateway.Prelude.{
  ◌≡◌, refl, subst, sym, ℕ, String, true, List, Option, none, some, ◌⊎◌, inl, inr, map, ◌==◌,
}
use pq_migration_gateway.Result.{Error, Result, ok, ok-injective, require-then, >>=-eq-ok}
use pq_migration_gateway.Exec.Ends.{
  Ends, >>=-Ends, query-Ends, query-then, commit-then, commit-Ends, commit-returns, catch-Ends,
}
use pq_migration_gateway.Json.{Json, Items, Fields, arr, obj, get_or}
use pq_migration_gateway.Store.Rows.{find_row, update_rows, delete_rows, find_row-update_self}
use pq_migration_gateway.Store.Tables.{
  ScanStatus, running, succeeded, failed, ScanJob, CryptoAsset, Store,
}
use pq_migration_gateway.Store.Releases.{audit_conn, audit_error}
use pq_migration_gateway.Store.Scans.{
  has_scan, find_scan, set_scan, scan_status_of, update_scan_job,
}
use pq_migration_gateway.Store.Inventory.{
  items_of, objects, insert_findings, dict_of, finish_scan, store_inventory, ingest_scan_inventory,
}
use pq_migration_gateway.Report.Processes.{Host}
use pq_migration_gateway.Migration.Request.{Scanner, validate_request}
use pq_migration_gateway.Migration.Authorized.{validate_request-IsAuthorized}
use pq_migration_gateway.Migration.Runnable.{scan_command-returns}
use pq_migration_gateway.Migration.Job.{output_dir, output_in, scan_and_ingest, run_scan}

-- The job has this status.
abbrev pub HasStatus : String → ScanStatus → Store → Type 0
HasStatus id status st = (job : ScanJob) × (find_scan id st ≡ some job) × (job.status ≡ status)

abbrev pub Known : String → Store → Type 0
Known id st = (job : ScanJob) × (find_scan id st ≡ some job)

-- A change of the job.
update_rows-HasStatus :
    (id : String) (f : ScanJob → ScanJob) (jobs : List ScanJob) (job : ScanJob)
    → ((x : ScanJob) → (f x).scan_id ≡ x.scan_id)
    → find_row (has_scan id) jobs ≡ some job
    → find_row (has_scan id) (update_rows (has_scan id) f jobs) ≡ some (f job)
update_rows-HasStatus id f jobs job keeps there =
    find_row-update_self (has_scan id) f job
      (λ x e. subst (λ y. (y == id) ≡ true) (sym (keeps x)) e) jobs there

module _ (id output : String) (error : Option Error) (now : ℕ) where
  update_scan_job-returns :
      (name : String) (status : ScanStatus) (st : Store)
      → scan_status_of name ≡ some status
      → Known id st
      → (st' : Store) × (update_scan_job id name none output error now st ≡ ok st')
        × HasStatus id status st'
  unfolding update_scan_job find_scan
  update_scan_job-returns name status st named (job, there) =
      rw (named, there)
        (
          _,
          refl,
          (
            _,
            update_rows-HasStatus id (set_scan status none output error now) st.scan_jobs job
                (λ x. refl) there,
            refl,
          ),
        )

module _ (python_str : Json → String) (id : String) (now : ℕ) where
  store_inventory-HasStatus :
      (assets : List CryptoAsset) (inventory : Fields) (actor : String) (st st' : Store)
      → Known id st
      → store_inventory python_str id now assets inventory actor st ≡ ok st'
      → HasStatus id succeeded st'
  unfolding store_inventory find_scan audit_conn audit_error
  store_inventory-HasStatus assets inventory actor st st' (job, there) e₀ =
      let (_, e₁) = require-then _ _ _ st' e₀ in
      let (found, _, e₂) =
        >>=-eq-ok (items_of (get_or "findings" (arr Items.nil) inventory)) _ e₁ in
      let (rows, _, e₃) =
        >>=-eq-ok
          (insert_findings python_str id now (map (λ a. a.asset_id) assets) (objects found)
            (delete_rows (λ f. f.scan_id == id) st.scan_findings))
          _ e₂ in
      let (given, _, e₄) =
        >>=-eq-ok (dict_of python_str id now (get_or "summary" (obj Fields.end) inventory)) _ e₃ in
      subst (HasStatus id succeeded) (ok-injective e₄) (
        _,
        update_rows-HasStatus id (finish_scan python_str id now _) st.scan_jobs job (λ x. refl)
            there,
        refl,
      )

  ingest_scan_inventory-HasStatus :
      (inventory : Fields) (actor : String) (st st' : Store)
      → Known id st
      → ingest_scan_inventory python_str id now inventory actor st ≡ ok st'
      → HasStatus id succeeded st'
  unfolding ingest_scan_inventory
  ingest_scan_inventory-HasStatus inventory actor st st' known e₀ =
      let (evidence, _, e₁) =
        >>=-eq-ok (items_of (get_or "evidence" (arr Items.nil) inventory)) _ e₀ in
      let (concrete, _, e₂) =
        >>=-eq-ok (items_of (get_or "assets" (arr Items.nil) inventory)) _ e₁ in
      let (artifacts, _, e₃) =
        >>=-eq-ok (items_of (get_or "artifacts" (arr Items.nil) inventory)) _ e₂ in
      store_inventory-HasStatus _ inventory actor st st' known e₃

module _ (python_str : Json → String) (mkdir : String → Result (Unit {0}))
    (scan : List Json → Result Fields) (control_dir : String) (actor : String) (now : ℕ)
    (id : String) where
  -- The inventory is taken whole, or the job is as it was.
  scan_and_ingest-Ends :
      (command : List Json) (st : Store)
      → Known id st
      → Ends
          (λ _ st'. HasStatus id succeeded st' ⊎ HasStatus id failed st')
          (Known id)
          (scan_and_ingest python_str mkdir scan control_dir actor now id command st)
  unfolding scan_and_ingest
  scan_and_ingest-Ends command st known =
      >>=-Ends (λ _ s. Known id s) _ (Known id) _ _ st
        (query-Ends (λ _ s. Known id s) (Known id) (λ _. scan command) st (λ _ _. known) known)
        (λ inventory s there.
          commit-Ends _ (Known id) (ingest_scan_inventory python_str id now inventory actor) s
            (λ st' e.
              inl (ingest_scan_inventory-HasStatus python_str id now inventory actor s st' there e))
            there)

  -- If the directory of the job can be made and its request is one that validate_request returned, the
  -- scan of a job that is there never raises: whatever the scanner does and whatever inventory it
  -- writes, the job ends as SUCCEEDED or as FAILED.
  pub run_scan-Ends :
      (h : Host) (s : Scanner) (given request : Fields) (st : Store)
      → validate_request h s given ≡ ok request
      → mkdir (output_dir python_str mkdir scan control_dir actor now id) ≡ ok tt
      → Known id st
      → Ends
          (λ _ st'. HasStatus id succeeded st' ⊎ HasStatus id failed st')
          (λ _. ⊥)
          (run_scan python_str mkdir scan control_dir actor now id request st)
  unfolding run_scan scan_status_of
  run_scan-Ends h s given request st valid made known =
      let json = output_in python_str mkdir scan control_dir actor now id "inventory.json" in
      let csv = output_in python_str mkdir scan control_dir actor now id "inventory.csv" in
      let (st₁, started, (job, there, _)) =
        update_scan_job-returns id json none now "RUNNING" running st refl known in
      let (command, built) =
        scan_command-returns python_str h s request
          (validate_request-IsAuthorized h s given request valid) json csv in
      query-then _ (λ _. ⊥) _ _ st tt made
        (commit-then _ (λ _. ⊥) _ _ st st₁ started
          (query-then _ (λ _. ⊥) _ _ st₁ command built
            (catch-Ends _ (λ _. ⊥) (Known id)
              (scan_and_ingest python_str mkdir scan control_dir actor now id command) _ st₁
              (scan_and_ingest-Ends command st₁ (job, there))
              (λ e s' still.
                let (st₂, ended, as_failed) =
                  update_scan_job-returns id json (some e) now "FAILED" failed s' refl still in
                commit-returns _ (λ _. ⊥) (update_scan_job id "FAILED" none json (some e) now) s'
                  st₂ ended (inr as_failed)))))

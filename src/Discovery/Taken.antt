-- ===== src/Discovery/Taken.antt =====
-- The transactions of `ingest_runtime_report` of manager/config_store.py do not raise on a report that
-- `normalize_runtime_report` returned, if the metadata of its observations are objects.
use pq_migration_gateway.Prelude.{
  ◌≡◌, refl, subst, ℕ, String, true, false, List, [], ◌∷◌, map, arith, ◌==◌, eq_iff, is_some, mem,
  any, All, Any, ◌⊎◌, inl, inr,
}
use pq_migration_gateway.Result.{type_error, ok, err, ok-injective}
use pq_migration_gateway.Json.{
  Json, Fields, null, bool, num, real, str, arr, obj, get, get_or, find, update, elements-array,
}
use pq_migration_gateway.Store.Rows.{delete_rows}
use pq_migration_gateway.Store.Tables.{CryptoAsset, ScanFinding, Store}
use pq_migration_gateway.Store.Releases.{audit_conn, audit_error}
use pq_migration_gateway.Store.Scans.{find_scan}
use pq_migration_gateway.Store.Inventory.{
  items_of, objects, same_finding, insert_findings, artifact_assets, upsert_assets, store_inventory,
  ingest_scan_inventory,
}
use pq_migration_gateway.Report.Types.{RuntimeProcess, Observation, Report}
use pq_migration_gateway.Report.Inventory.{
  evidence_metadata, unpacked, evidence_json, artifact_json, artifacts_from, runtime_evidence,
  runtime_inventory,
}
use pq_migration_gateway.Report.Normal.{IsObserved, Fresh}

-- The metadata of the observation are an object.
abbrev pub HasObject : Observation → Type 0
HasObject o = (fs : Fields) × (o.metadata ≡ obj fs)

abbrev pub fields_of : Json → Fields
fields_of (obj fs) = fs
fields_of _ = Fields.end

-- The evidence of an observation.
abbrev pub evidence_of : Report → Observation → Json
evidence_of r o = evidence_json r o (update (evidence_metadata r o) (fields_of o.metadata))

pub runtime_evidence-map :
    (r : Report) (os : List Observation)
    → All HasObject os
    → runtime_evidence r os ≡ ok (map (evidence_of r) os)
unfolding runtime_evidence
runtime_evidence-map r [] all = refl
runtime_evidence-map r (o ∷ os) ((fs, e), all) = rw (e, runtime_evidence-map r os all) refl

abbrev pub NoObject : Json → Type 0
NoObject (obj fs) = ⊥
NoObject _ = Unit

-- Unpacking raises exactly on a value that is no object.
unpacked-cases :
    (own : Fields) (v : Json)
    → ((fs : Fields) × (v ≡ obj fs)) ⊎ (unpacked own v ≡ err (type_error "not a mapping"))
unpacked-cases own null = inr refl
unpacked-cases own (bool _) = inr refl
unpacked-cases own (num _) = inr refl
unpacked-cases own (real _) = inr refl
unpacked-cases own (str _) = inr refl
unpacked-cases own (arr _) = inr refl
unpacked-cases own (obj fs) = inl (fs, refl)

runtime_evidence-raises :
    (r : Report) (os : List Observation)
    → Any (λ (o : Observation). NoObject o.metadata) os
    → runtime_evidence r os ≡ err (type_error "not a mapping")
unfolding runtime_evidence
runtime_evidence-raises r [] h = elim h [ ]
runtime_evidence-raises r (o ∷ os) h = elim (unpacked-cases (evidence_metadata r o) o.metadata) [
  | inr e ↦ rw e refl
  | inl (fs, e) ↦ rw (e, runtime_evidence-raises r os (later h fs e)) refl
]
  where
    later :
        Any (λ (x : Observation). NoObject x.metadata) (o ∷ os)
        → (fs : Fields) → o.metadata ≡ obj fs
        → Any (λ (x : Observation). NoObject x.metadata) os
    later (inl here) fs e = elim (subst NoObject e here) [ ]
    later (inr there) fs e = there

-- If the metadata of one observation are no object, runtime_inventory raises a TypeError.
pub runtime_inventory-raises :
    (r : Report)
    → Any (λ (o : Observation). NoObject o.metadata) r.observations
    → runtime_inventory r ≡ err (type_error "not a mapping")
unfolding runtime_inventory
runtime_inventory-raises r h = rw (runtime_evidence-raises r r.observations h) refl

module _ (python_str : Json → String) (scan : String) (now : ℕ) (ids : List String)
    (r : Report) where
  insert_findings-returns :
      (ps : List RuntimeProcess) (os : List Observation) (seen : List String)
      (table : List ScanFinding)
      → All (IsObserved ps) os
      → Fresh seen os
      → ((id : String)
          → mem id seen ≡ false
          → any (same_finding python_str scan now id) table ≡ false)
      → (rows : List ScanFinding) × (insert_findings python_str scan now ids
            (objects (map (evidence_of r) os))
            table
          ≡ ok rows)
  unfolding insert_findings evidence_json get get_or find
  insert_findings-returns ps [] seen table all fresh apart = (table, refl)
  insert_findings-returns ps (o ∷ os) seen table (seen_o, all) (new, fresh) apart =
      rw (seen_o.keyed, seen_o.keyed, apart o.observation_key new)
        (insert_findings-returns ps os (o.observation_key ∷ seen) (_ ∷ table) all fresh (λ id h.
          ground (arith, eq_iff id o.observation_key, eq_iff o.observation_key id, apart id)))

-- What is deleted is not there.
any-delete :
    (python_str : Json → String) (scan : String) (now : ℕ) (id : String) (rows : List ScanFinding)
    → any (same_finding python_str scan now id) (delete_rows (λ f. f.scan_id == scan) rows) ≡ false
unfolding delete_rows
any-delete python_str scan now id [] = refl
any-delete python_str scan now id (f ∷ rows) =
    ground (arith, any-delete python_str scan now id rows)

module _ (python_str : Json → String) (scan : String) (now : ℕ) (actor : String) where
  -- The assets that the inventory of a report has.
  abbrev pub assets_of : Report → List CryptoAsset
  assets_of r =
      artifact_assets python_str scan now (objects (map (evidence_of r) r.observations))
        (objects (map (artifact_json r) (artifacts_from r.processes [])))

  pub runtime_inventory-returns :
      (r : Report)
      → All HasObject r.observations
      → (inventory : Fields) × (runtime_inventory r ≡ ok inventory)
  unfolding runtime_inventory
  runtime_inventory-returns r all = rw (runtime_evidence-map r r.observations all) (_, refl)

  pub ingest_scan_inventory-returns :
      (r : Report) (inventory : Fields) (st : Store)
      → All HasObject r.observations
      → All (IsObserved r.processes) r.observations
      → Fresh [] r.observations
      → is_some (find_scan scan st) ≡ true
      → runtime_inventory r ≡ ok inventory
      → (st' : Store) × (ingest_scan_inventory python_str scan now inventory actor st ≡ ok st')
        × (st'.crypto_assets ≡ upsert_assets python_str scan now (assets_of r) st.crypto_assets)
  unfolding runtime_inventory ingest_scan_inventory store_inventory items_of get_or find audit_conn
      audit_error
  ingest_scan_inventory-returns r inventory st objects_all observed fresh there made =
      let (rows, e) =
        insert_findings-returns python_str scan now (map (λ a. a.asset_id) (assets_of r)) r
          r.processes r.observations [] (delete_rows (λ f. f.scan_id == scan) st.scan_findings)
          observed fresh (λ id _. any-delete python_str scan now id st.scan_findings) in
      subst
        (λ i.
          (st' : Store) × (ingest_scan_inventory python_str scan now i actor st ≡ ok st')
          × (st'.crypto_assets ≡ upsert_assets python_str scan now (assets_of r) st.crypto_assets))
        (ok-injective (rw (runtime_evidence-map r r.observations objects_all) at made))
        (rw
          (
            elements-array (map (evidence_of r) r.observations),
            elements-array (map (artifact_json r) (artifacts_from r.processes [])),
            there,
            e,
          )
          (_, refl, refl))

-- ===== src/Store/Inventory.antt =====
-- `_asset_risk`, `_asset_pq_status` and `ingest_scan_inventory` of manager/config_store.py.
use Prim.Native.Nat.{Ordering}
use Prim.Native.String.{compare}
use pq_migration_gateway.Prelude.{
  ℕ, String, Bool, not, ◌&&◌, ◌||◌, List, [], ◌∷◌, ◌++◌, map, Option, none, some, ◌==◌,
  if◌then◌else◌, is_some, ltb, length, keep, mem, any,
}
use pq_migration_gateway.Prelude.Int.{pos}
use pq_migration_gateway.Result.{
  Result, ok, err, key_error, type_error, integrity_error, ◌>>=◌, ◌>>◌, require,
}
use pq_migration_gateway.Json.{
  Json, Items, Fields, num, str, arr, obj, array, elements, get, get_or, insert, update, truthy,
  or_else,
}
use pq_migration_gateway.Gateway.Text.{join}
use pq_migration_gateway.Store.Rows.{update_rows, delete_rows, upsert_row}
use pq_migration_gateway.Store.Tables.{succeeded, ScanJob, CryptoAsset, ScanFinding, Store, name_id}
use pq_migration_gateway.Store.Releases.{audit_conn}
use pq_migration_gateway.Store.Scans.{has_scan, find_scan, has_asset}

-- `rank.get(item, 0)`
unfoldable pub risk_rank : String → ℕ
risk_rank risk =
    if risk == "LOW"
    then 1
    else if risk == "MEDIUM"
    then 2
    else if risk == "HIGH"
    then 3
    else if risk == "CRITICAL"
    then 4
    else 0

-- `max(risks, key=rank)`: the first one of the highest rank
unfoldable pub max_risk : String → List String → String
unfolding risk_rank
max_risk best [] = best
max_risk best (r ∷ rs) = max_risk (if ltb (risk_rank best) (risk_rank r) then r else best) rs

-- `str` of a JSON value, where `python_str` is `str` of one that is not a text.
module _ (python_str : Json → String) where
  abbrev pub text : Json → String
  text (str s) = s
  text v = python_str v

  abbrev pub text_or : String → String → Fields → String
  text_or key default item = text (get_or key (str default) item)

  -- `_asset_risk`
  unfoldable pub asset_risk : List Fields → String
  unfolding max_risk
  asset_risk [] = "INFO"
  asset_risk (e ∷ es) = max_risk (text_or "risk" "INFO" e) (map (text_or "risk" "INFO") es)

  abbrev weak : String → Bool
  weak s =
      s == "classically_weak"
      || s == "classically_weak_and_quantum_vulnerable"
      || s == "quantum_vulnerable"

  -- `_asset_pq_status`
  unfoldable pub asset_pq_status : List Fields → String
  asset_pq_status evidence =
      let statuses = map (text_or "pq_status" "unknown") evidence in
      if any weak statuses
      then "quantum_vulnerable"
      else if mem "pqc_or_pqc_candidate" statuses
      then "pqc_or_pqc_candidate"
      else "unknown"

letters_of : String → List Json
letters_of String.[] = []
letters_of (String.◌∷◌ c s) = str (String.◌∷◌ c "") ∷ letters_of s

keys_of : Fields → List Json
keys_of Fields.end = []
keys_of (Fields.field k v fs) = str k ∷ keys_of fs

-- `for item in v`, `len(v)`
unfoldable pub items_of : Json → Result (List Json)
unfolding letters_of keys_of
items_of (arr items) = ok (elements items)
items_of (str s) = ok (letters_of s)
items_of (obj fs) = ok (keys_of fs)
items_of _ = err (type_error "not iterable")

-- `isinstance(item, dict)`
abbrev pub objects : List Json → List Fields
objects [] = []
objects (obj fs ∷ rest) = fs ∷ objects rest
objects (_ ∷ rest) = objects rest

-- Insertion into a sorted list without repeats, for `sorted({…})`.
insert_text : String → List String → List String
insert_text s [] = s ∷ []
insert_text s (t ∷ ts) = elim (compare s t) [
  | Ordering.lt ↦ s ∷ t ∷ ts
  | Ordering.eq ↦ t ∷ ts
  | Ordering.gt ↦ t ∷ insert_text s ts
]

unfoldable pub sorted_set : List String → List String
unfolding insert_text
sorted_set [] = []
sorted_set (s ∷ ss) = insert_text s (sorted_set ss)

abbrev asset_row :
    String → String → String → String → String → String → String → Json → ℕ → CryptoAsset
asset_row scan_id asset_id type path algorithm risk pq_status payload now = record {
  asset_id = asset_id;
  latest_scan_id = scan_id;
  asset_type = type;
  path = path;
  algorithm = algorithm;
  risk = risk;
  pq_status = pq_status;
  payload = payload;
  created_at = now;
  updated_at = now;
}

module _ (python_str : Json → String) (scan_id : String) (now : ℕ) where
  -- The loop over `assets`.
  unfoldable pub concrete_assets : List Fields → List CryptoAsset
  concrete_assets [] = []
  concrete_assets (item ∷ items) =
      let rest = concrete_assets items in
      if truthy (get "asset_id" item)
      then asset_row scan_id (text python_str (get "asset_id" item))
          (text_or python_str "asset_type" "crypto_asset" item) (text_or python_str "path" "" item)
          (text_or python_str "algorithm" "" item) (text_or python_str "risk" "INFO" item)
          (text_or python_str "pq_status" "unknown" item)
          (obj (update (Fields.field "record_kind" (str "concrete_asset") Fields.end) item)) now
        ∷ rest
      else rest

  -- The evidence of an artifact: `by_artifact.get(str(item["artifact_id"]), [])`
  abbrev evidence_of : String → List Fields → List Fields
  evidence_of id evidence =
      keep (λ e. let own = text_or python_str "artifact_id" "" e in not (own == "") && own == id)
        evidence

  abbrev algorithms_of : List Fields → List String
  algorithms_of rows =
      map (text_or python_str "algorithm" "") (keep (λ r. truthy (get "algorithm" r)) rows)

  -- The loop over `artifacts`.
  unfoldable pub artifact_assets : List Fields → List Fields → List CryptoAsset
  unfolding sorted_set asset_risk asset_pq_status
  artifact_assets evidence [] = []
  artifact_assets evidence (item ∷ items) =
      let rest = artifact_assets evidence items in
      let id = text python_str (get "artifact_id" item) in
      let rows = evidence_of id evidence in
      let algorithms = sorted_set (algorithms_of rows) in
      if truthy (get "artifact_id" item)
      then asset_row scan_id id (text_or python_str "artifact_type" "software_artifact" item)
          (text_or python_str "path" "" item) (join ";" algorithms) (asset_risk python_str rows)
          (asset_pq_status python_str rows)
          (obj (
            insert "algorithms" (arr (array (map (λ a. str a) algorithms))) (
              insert "evidence_count" (num (pos (length rows)))
                (update (Fields.field "record_kind" (str "software_artifact") Fields.end) item))))
          now
        ∷ rest
      else rest

  -- The upserts of the transaction; a known asset keeps its creation time.
  unfoldable pub upsert_assets : List CryptoAsset → List CryptoAsset → List CryptoAsset
  upsert_assets [] table = table
  upsert_assets (a ∷ as_) table =
      upsert_assets as_ (
        upsert_row (has_asset a.asset_id) (λ old. record a { created_at = old.created_at }) a table)

  abbrev pub linked : List String → String → Option String
  linked ids id = if mem id ids then some id else none

  abbrev pub same_finding : String → ScanFinding → Bool
  same_finding id f = f.scan_id == scan_id && f.finding_id == id

  -- The loop over `findings`; the primary key refuses a finding twice.
  unfoldable pub insert_findings :
      List String → List Fields → List ScanFinding → Result (List ScanFinding)
  insert_findings ids [] table = ok table
  insert_findings ids (item ∷ items) table =
      let id =
        text python_str
          (or_else (get "evidence_id" item) (or_else (get "asset_id" item) (str ""))) in
      let asset =
        text python_str
          (or_else (get "artifact_id" item) (or_else (get "asset_id" item) (str ""))) in
      let row : ScanFinding = record {
        scan_id = scan_id;
        finding_id = id;
        asset_id = if asset == "" then none else linked ids asset;
        finding_type =
            text python_str (
              or_else (get "evidence_type" item) (or_else (get "asset_type" item) (str "finding")));
        risk = text_or python_str "risk" "INFO" item;
        payload = obj item;
      } in
      if id == "" then insert_findings ids items table else do
        require (not (any (same_finding id) table)) (integrity_error "scan_findings")
        insert_findings ids items (row ∷ table)

  -- `dict(v)`; a summary is an object
  abbrev pub dict_of : Json → Result Fields
  dict_of (obj fs) = ok fs
  dict_of _ = err (type_error "summary")

  abbrev pub finish_scan : Fields → ScanJob → ScanJob
  finish_scan summary job = record job {
    status = succeeded;
    summary = obj summary;
    completed_at = some now;
    error = none;
  }

  -- The transaction of `ingest_scan_inventory`, on the assets that were read from the inventory.
  unfoldable pub store_inventory : List CryptoAsset → Fields → String → Store → Result Store
  unfolding items_of upsert_assets insert_findings find_scan audit_conn
  store_inventory assets inventory actor st = do
    require (is_some (find_scan scan_id st)) (key_error scan_id)
    found ← items_of (get_or "findings" (arr Items.nil) inventory)
    rows ←
        insert_findings (map (λ a. a.asset_id) assets) (objects found)
          (delete_rows (λ f. f.scan_id == scan_id) st.scan_findings)
    given ← dict_of (get_or "summary" (obj Fields.end) inventory)
    let summary =
        insert "control_plane_findings" (num (pos (length found)))
          (insert "control_plane_assets" (num (pos (length assets))) given)
    ok (
        audit_conn now actor "scan.ingest" "scan_job" (name_id scan_id) (obj summary) (record st {
          crypto_assets = upsert_assets assets st.crypto_assets;
          scan_findings = rows;
          scan_jobs = update_rows (has_scan scan_id) (finish_scan summary) st.scan_jobs;
        }))

  -- `ingest_scan_inventory`
  unfoldable pub ingest_scan_inventory : Fields → String → Store → Result Store
  unfolding items_of concrete_assets artifact_assets store_inventory
  ingest_scan_inventory inventory actor st = do
    evidence ← items_of (get_or "evidence" (arr Items.nil) inventory)
    concrete ← items_of (get_or "assets" (arr Items.nil) inventory)
    artifacts ← items_of (get_or "artifacts" (arr Items.nil) inventory)
    store_inventory
        (concrete_assets (objects concrete)
          ++ artifact_assets (objects evidence) (objects artifacts))
        inventory actor st

-- ===== src/Store/Lists.antt =====
-- The lists of manager/config_store.py that are sorted: `list_scan_jobs`, `list_scan_findings` and
-- `list_crypto_assets`; and `list` of manager/state_machine.py.
use Prim.Native.Nat.{Ordering}
use Prim.Native.String.{compare}
use pq_migration_gateway.Prelude.{
  ℕ, String, Bool, true, false, ◌||◌, ◌&&◌, List, [], ◌∷◌, map, ◌==◌, eqb, ltb, take, keep,
  if◌then◌else◌,
}
use pq_migration_gateway.Result.{Result, ok, ◌>>=◌}
use pq_migration_gateway.Json.{Json}
use pq_migration_gateway.Store.Rows.{clamp_limit}
use pq_migration_gateway.Store.Tables.{ScanJob, ScanFinding, CryptoAsset, StateRow, Store}
use pq_migration_gateway.Store.Scans.{get_scan_job}

-- `ORDER BY`, by a test that one row stands before another.
module _ {ℓ} {R : Type ℓ} (before : R → R → Bool) where
  insert_sorted : R → List R → List R
  insert_sorted r [] = r ∷ []
  insert_sorted r (x ∷ xs) = if before x r then x ∷ insert_sorted r xs else r ∷ x ∷ xs

  unfoldable pub order_by : List R → List R
  unfolding insert_sorted
  order_by [] = []
  order_by (r ∷ rs) = insert_sorted r (order_by rs)

-- `a < b`, in the byte order of SQLite's BINARY collation
abbrev pub less : String → String → Bool
less a b = elim (compare a b) [ Ordering.lt ↦ true | _ ↦ false ]

-- `created_at DESC, scan_id DESC`
abbrev newer_job : ScanJob → ScanJob → Bool
newer_job a b =
    ltb b.created_at a.created_at || (eqb a.created_at b.created_at && less b.scan_id a.scan_id)

-- `list_scan_jobs`
unfoldable pub list_scan_jobs : ℕ → Store → List ScanJob
unfolding order_by
list_scan_jobs limit st = take (clamp_limit 1000 limit) (order_by newer_job st.scan_jobs)

-- `risk DESC, finding_id`
abbrev sooner_finding : ScanFinding → ScanFinding → Bool
sooner_finding a b = less b.risk a.risk || (a.risk == b.risk && less a.finding_id b.finding_id)

-- `list_scan_findings`, of a scan that exists
unfoldable pub list_scan_findings : String → ℕ → Store → Result (List Json)
unfolding order_by
list_scan_findings scan_id limit st = do
  job ← get_scan_job scan_id st
  ok (
      map (λ f. f.payload)
        (take (clamp_limit 10000 limit)
          (order_by sooner_finding (keep (λ f. f.scan_id == scan_id) st.scan_findings))))

-- `updated_at DESC, asset_id`
abbrev newer_asset : CryptoAsset → CryptoAsset → Bool
newer_asset a b =
    ltb b.updated_at a.updated_at || (eqb a.updated_at b.updated_at && less a.asset_id b.asset_id)

-- `list_crypto_assets`
unfoldable pub list_crypto_assets : ℕ → Store → List CryptoAsset
unfolding order_by
list_crypto_assets limit st = take (clamp_limit 5000 limit) (order_by newer_asset st.crypto_assets)

-- `MigrationStateMachine.list`
unfoldable pub list_states : Store → List StateRow
unfolding order_by
list_states st = order_by (λ a b. less a.service_id b.service_id) st.service_states

-- ===== src/Store/Summary.antt =====
-- `control_plane_summary_metrics` of manager/config_store.py.
use Prim.Native.Nat.{Ordering}
use Prim.Native.String.{compare}
use pq_migration_gateway.Prelude.{ℕ, String, ◌&&◌, List, [], ◌∷◌, ◌++◌, map, ◌==◌, length}
use pq_migration_gateway.Store.Rows.{count_rows}
use pq_migration_gateway.Store.Tables.{
  ScanStatus, queued, running, succeeded, failed, CryptoAsset, gauge, MetricRow, Store,
}
use pq_migration_gateway.Store.Metrics.{Labels, metric_row, real}
use pq_migration_gateway.StateMachine.{state_name, states}

-- `sorted({…})`
insert_once : String → List String → List String
insert_once s [] = s ∷ []
insert_once s (t ∷ ts) = elim (compare s t) [
  | Ordering.lt ↦ s ∷ t ∷ ts
  | Ordering.eq ↦ t ∷ ts
  | Ordering.gt ↦ t ∷ insert_once s ts
]

unfoldable pub sorted_once : List String → List String
unfolding insert_once
sorted_once [] = []
sorted_once (s ∷ ss) = insert_once s (sorted_once ss)

unfoldable pub scan_status_name : ScanStatus → String
scan_status_name queued = "QUEUED"
scan_status_name running = "RUNNING"
scan_status_name succeeded = "SUCCEEDED"
scan_status_name failed = "FAILED"

-- `GROUP BY risk, pq_status`, in the order of the two columns
insert_pair : String → String → List (String × String) → List (String × String)
insert_pair r p [] = (r, p) ∷ []
insert_pair r p ((s, q) ∷ rest) = elim (compare r s) [
  | Ordering.lt ↦ (r, p) ∷ (s, q) ∷ rest
  | Ordering.gt ↦ (s, q) ∷ insert_pair r p rest
  | Ordering.eq ↦ (elim (compare p q) [
    | Ordering.lt ↦ (r, p) ∷ (s, q) ∷ rest
    | Ordering.eq ↦ (s, q) ∷ rest
    | Ordering.gt ↦ (s, q) ∷ insert_pair r p rest
  ])
]

unfoldable pub asset_groups : List CryptoAsset → List (String × String)
unfolding insert_pair
asset_groups [] = []
asset_groups (a ∷ as_) = insert_pair a.risk a.pq_status (asset_groups as_)

-- `metric(name, value, labels, help_text)`
abbrev gauge_row : String → ℕ → Labels → String → ℕ → MetricRow
gauge_row name value labels help now = metric_row name labels gauge help (real value) now

abbrev asset_gauge : ℕ → String → String → ℕ → MetricRow
asset_gauge value risk pq_status now =
    gauge_row "gateway_crypto_assets" value (("risk", risk) ∷ ("pq_status", pq_status) ∷ [])
      "Current normalized cryptographic assets by risk and PQ status." now

unfoldable pub asset_metrics : List CryptoAsset → ℕ → List MetricRow
unfolding asset_groups count_rows
asset_metrics [] now = asset_gauge 0 "NONE" "unknown" now ∷ []
asset_metrics (a ∷ as_) now =
    map
      (λ (risk, pq).
        asset_gauge (count_rows (λ x. x.risk == risk && x.pq_status == pq) (a ∷ as_)) risk pq now)
      (asset_groups (a ∷ as_))

unfoldable pub scan_metrics : Store → ℕ → List MetricRow
unfolding count_rows scan_status_name
scan_metrics st now =
    map
      (λ status.
        gauge_row "gateway_scan_jobs"
          (count_rows (λ job. scan_status_name job.status == status) st.scan_jobs)
          (("status", status) ∷ []) "Current enterprise scan jobs by status." now)
      ("QUEUED" ∷ "RUNNING" ∷ "SUCCEEDED" ∷ "FAILED" ∷ [])

unfoldable pub plan_metrics : Store → ℕ → List MetricRow
unfolding count_rows sorted_once
plan_metrics st now =
    map
      (λ status.
        gauge_row "gateway_migration_plans"
          (count_rows (λ p. p.status == status) st.migration_plans) (("status", status) ∷ [])
          "Current scan-driven migration plans by status." now)
      (sorted_once (
        "COMPATIBILITY_STAGED"
        ∷ "STRICT_STAGED"
        ∷ "VERIFIED"
        ∷ map (λ p. p.status) st.migration_plans))

-- Every stored state is one of the ten.
unfoldable pub state_metrics : Store → ℕ → List MetricRow
unfolding count_rows sorted_once state_name
state_metrics st now =
    map
      (λ state.
        gauge_row "gateway_migration_services"
          (count_rows (λ row. state_name row.state == state) st.service_states)
          (("state", state) ∷ []) "Current services by migration state." now)
      (sorted_once (map state_name states))

unfoldable pub control_plane_summary_metrics : ℕ → Store → List MetricRow
unfolding asset_metrics scan_metrics plan_metrics state_metrics
control_plane_summary_metrics now st =
    asset_metrics st.crypto_assets now
    ++ scan_metrics st now
    ++ plan_metrics st now
    ++ state_metrics st now
    ++ (gauge_row "gateway_managed_services" (length st.service_resources) []
          "Current first-class Gateway service resources." now
        ∷ gauge_row "gateway_asset_assessments" (length st.asset_assessments) []
            "Current persisted cryptographic asset assessments." now
        ∷ [])

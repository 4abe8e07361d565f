-- ===== src/Store/Metrics/Counts.antt =====
-- `increment_metric` of manager/config_store.py on a metric that is there and on a new one.
use pq_migration_gateway.Prelude.{
  ◌≡◌, refl, ℕ, String, true, Option, none, some, eq_refl, arith, Option-cases, inl, inr, [], ◌∷◌,
}
use pq_migration_gateway.Prelude.Int.{ℤ, ◌+ℤ◌}
use pq_migration_gateway.Store.Tables.{Store, counter}
use pq_migration_gateway.Store.Rows.{find_row, find_row-upsert_self}
use pq_migration_gateway.Store.Metrics.{
  Labels, same_labels, is_metric, metric_row, metric_value, add_amount, increment_metric,
}

same_labels_refl : (ls : Labels) → same_labels ls ls ≡ true
same_labels_refl [] = refl
same_labels_refl ((k, v) ∷ ls) = ground (arith, eq_refl k, eq_refl v, same_labels_refl ls)

abbrev pub or_nothing : Option ℤ → ℤ → ℤ
or_nothing none amount = amount
or_nothing (some v) amount = v +ℤ amount

-- `increment_metric` adds the amount to the value of the metric, or starts it at the amount.
pub increment_metric-metric_value :
    (name : String) (amount : ℤ) (labels : Labels) (help : String) (now : ℕ) (st : Store)
    → metric_value name labels (increment_metric name amount labels help now st)
      ≡ some (or_nothing (metric_value name labels st) amount)
unfolding metric_value increment_metric
increment_metric-metric_value name amount labels help now st =
    let placed =
      find_row-upsert_self (is_metric name labels) (add_amount amount help now)
        (metric_row name labels counter help amount now) (λ r e. e)
        (ground (arith, eq_refl name, same_labels_refl labels)) st.runtime_metrics in
    elim (Option-cases (find_row (is_metric name labels) st.runtime_metrics)) [
      | inl e ↦ ground (arith, e, placed)
      | inr (r, e) ↦ ground (arith, e, placed)
    ]

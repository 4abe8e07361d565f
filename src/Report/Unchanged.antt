-- ===== src/Report/Unchanged.antt =====
-- `_bounded_json` of manager/runtime_ingest.py leaves a value within its limits as it is.
use pq_migration_gateway.Prelude.{
  ◌≡◌, refl, ap, sym, subst, ◌∙◌, ℕ, zero, suc, ◌≤◌, String, true, false, ◌↔◌, arith, ◌==◌, eq_iff,
}
use pq_migration_gateway.Json.{
  Json, Items, Fields, null, bool, num, real, str, arr, obj, nil, cons, end, field, insert,
}
use pq_migration_gateway.Report.Texts.{cut, cut_all}
use pq_migration_gateway.Report.Bounded.{
  take_items, take_fields, bound_items, bound_fields, bound_value, bounded_below, bounded_json,
}
use pq_migration_gateway.Report.Limits.{
  item_count, field_count, AllItems, lacks, Keyed, AllValues, FitsValue, Fits, bounded_below-Fits,
}

abbrev append_fields : Fields → Fields → Fields
append_fields end gs = gs
append_fields (field k v fs) gs = field k v (append_fields fs gs)

append_fields-end : (fs : Fields) → append_fields fs end ≡ fs
append_fields-end end = refl
append_fields-end (field k v fs) = rw (append_fields-end fs)

append_fields_assoc :
    (fs gs hs : Fields)
    → append_fields (append_fields fs gs) hs ≡ append_fields fs (append_fields gs hs)
append_fields_assoc end gs hs = refl
append_fields_assoc (field k v fs) gs hs = rw (append_fields_assoc fs gs hs)

take_fields_all : (n : ℕ) (fs : Fields) → field_count fs ≤ n → take_fields n fs ≡ fs
unfolding take_fields
take_fields_all zero end h = refl
take_fields_all zero (field k v fs) h = absurd (omega arith)
take_fields_all (suc n) end h = refl
take_fields_all (suc n) (field k v fs) h = rw (take_fields_all n fs (omega arith))

insert_new :
    (k : String) (v : Json) (fs : Fields)
    → lacks k fs ≡ true
    → insert k v fs ≡ append_fields fs (field k v end)
unfolding insert
insert_new k v end h = refl
insert_new k v (field j w fs) h = ground (arith, insert_new k v fs)

-- No key of the second stands in the first.
abbrev Apart : Fields → Fields → Type 0
Apart out end = Unit
Apart out (field k v fs) = (lacks k out ≡ true) × Apart out fs

Apart-end : (fs : Fields) → Apart end fs
Apart-end end = tt
Apart-end (field k v fs) = (refl, Apart-end fs)

lacks-append_fields :
    (j k : String) (v : Json) (out : Fields)
    → lacks j out ≡ true
    → (k == j) ≡ false
    → lacks j (append_fields out (field k v end)) ≡ true
lacks-append_fields j k v end h e = ground arith
lacks-append_fields j k v (field i w out) h e = ground (arith, lacks-append_fields j k v out)

Apart-append_fields :
    (k : String) (v : Json) (out fs : Fields)
    → Apart out fs
    → lacks k fs ≡ true
    → Apart (append_fields out (field k v end)) fs
Apart-append_fields k v out end apart new = tt
Apart-append_fields k v out (field j w fs) (new_j, apart) new = (
  lacks-append_fields j k v out new_j (ground (arith, eq_iff j k, eq_iff k j)),
  Apart-append_fields k v out fs apart (ground arith),
)

module _ (bound : Json → Json) (P : Json → Type 0) (fixed : (v : Json) → P v → bound v ≡ v) where
  bound_items_fixed :
      (n : ℕ) (js : Items)
      → item_count js ≤ n
      → AllItems P js
      → bound_items bound (take_items n js) ≡ js
  unfolding bound_items take_items
  bound_items_fixed zero nil few all = refl
  bound_items_fixed zero (cons j js) few all = absurd (omega arith)
  bound_items_fixed (suc n) nil few all = refl
  bound_items_fixed (suc n) (cons j js) few (h, all) =
      rw (fixed j h, bound_items_fixed n js (omega arith) all)

  bound_fields_fixed :
      (out fs : Fields)
      → Keyed fs
      → Apart out fs
      → AllValues P fs
      → bound_fields bound out fs ≡ append_fields out fs
  unfolding bound_fields
  bound_fields_fixed out end keyed apart all = sym (append_fields-end out)
  bound_fields_fixed out (field k v fs) (short, new, keyed) (free, apart) (h, all) =
      let step : insert (cut 128 k) (bound v) out ≡ append_fields out (field k v end) =
        rw (cut_all 128 k short, fixed v h) (insert_new k v out free) in
      rw step (
        bound_fields_fixed (append_fields out (field k v end)) fs keyed
          (Apart-append_fields k v out fs apart new) all
        ∙ append_fields_assoc out (field k v end) fs)

  bound_value_fixed : (v : Json) → FitsValue P v → bound_value bound v ≡ v
  unfolding bound_value
  bound_value_fixed null h = refl
  bound_value_fixed (bool _) h = refl
  bound_value_fixed (num _) h = refl
  bound_value_fixed (real _) h = refl
  bound_value_fixed (str s) h = rw (cut_all 2000 s h)
  bound_value_fixed (arr items) (few, all) = rw (bound_items_fixed 128 items few all)
  bound_value_fixed (obj fs) (few, keyed, all) =
      rw (take_fields_all 128 fs few) (ap obj (bound_fields_fixed end fs keyed (Apart-end fs) all))

bounded_below_fixed : (left : ℕ) (v : Json) → Fits left v → bounded_below left v ≡ v
unfolding bounded_below
bounded_below_fixed zero v h = sym h
bounded_below_fixed (suc left) v h =
    bound_value_fixed (bounded_below left) (Fits left) (bounded_below_fixed left) v h

-- _bounded_json leaves a value unchanged exactly when it is within the limits: six levels of nesting,
-- 128 entries to a list or object, distinct keys of 128 characters and texts of 2000.
pub bounded_json-Fits : (v : Json) → (bounded_json v ≡ v) ↔ Fits 6 v
unfolding bounded_json
bounded_json-Fits v = (λ e. subst (Fits 6) e (bounded_below-Fits 6 v), bounded_below_fixed 6 v)

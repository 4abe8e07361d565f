-- ===== src/Report/Bounded.antt =====
-- `_bounded_json` of manager/runtime_ingest.py.
use pq_migration_gateway.Prelude.{ℕ, zero, suc}
use pq_migration_gateway.Json.{
  Json, Items, Fields, null, bool, num, real, str, arr, obj, nil, cons, end, field, insert,
}
use pq_migration_gateway.Report.Texts.{cut}

-- `value[:n]`, and the first `n` entries of `value.items()`
unfoldable pub take_items : ℕ → Items → Items
take_items zero items = nil
take_items (suc n) nil = nil
take_items (suc n) (cons j js) = cons j (take_items n js)

unfoldable pub take_fields : ℕ → Fields → Fields
take_fields zero fs = end
take_fields (suc n) end = end
take_fields (suc n) (field k v fs) = field k v (take_fields n fs)

-- The two comprehensions, over what is done with a nested value.
unfoldable pub bound_items : (Json → Json) → Items → Items
bound_items bound nil = nil
bound_items bound (cons j js) = cons (bound j) (bound_items bound js)

unfoldable pub bound_fields : (Json → Json) → Fields → Fields → Fields
bound_fields bound out end = out
bound_fields bound out (field k v fs) = bound_fields bound (insert (cut 128 k) (bound v) out) fs

unfoldable pub bound_value : (Json → Json) → Json → Json
unfolding take_items take_fields bound_items bound_fields
bound_value bound null = null
bound_value bound (bool b) = bool b
bound_value bound (num n) = num n
bound_value bound (real r) = real r
bound_value bound (str s) = str (cut 2000 s)
bound_value bound (arr items) = arr (bound_items bound (take_items 128 items))
bound_value bound (obj fs) = obj (bound_fields bound end (take_fields 128 fs))

-- What is left of the depth: 6 - `depth`.
unfoldable pub bounded_below : ℕ → Json → Json
unfolding bound_value
bounded_below zero v = str "<depth-limited>"
bounded_below (suc left) v = bound_value (bounded_below left) v

unfoldable pub bounded_json : Json → Json
unfolding bounded_below
bounded_json = bounded_below 6

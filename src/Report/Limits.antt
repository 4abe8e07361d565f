-- ===== src/Report/Limits.antt =====
-- `_bounded_json` of manager/runtime_ingest.py keeps exactly the values within its limits.
use pq_migration_gateway.Prelude.{
  ◌≡◌, refl, ℕ, zero, suc, ◌+◌, ◌≤◌, String, Bool, true, false, arith, ◌==◌, eq_iff, Bool-cases,
  inl, inr, if◌then◌else◌,
}
use pq_migration_gateway.Json.{
  Json, Items, Fields, null, bool, num, real, str, arr, obj, nil, cons, end, field, insert,
}
use pq_migration_gateway.Report.Texts.{cut, text_length, text_length-cut}
use pq_migration_gateway.Report.Bounded.{
  take_items, take_fields, bound_items, bound_fields, bound_value, bounded_below,
}

abbrev pub item_count : Items → ℕ
item_count nil = 0
item_count (cons j js) = suc (item_count js)

abbrev pub field_count : Fields → ℕ
field_count end = 0
field_count (field k v fs) = suc (field_count fs)

abbrev pub AllItems : (Json → Type 0) → Items → Type 0
AllItems P nil = Unit
AllItems P (cons j js) = P j × AllItems P js

-- `k not in d`
abbrev pub lacks : String → Fields → Bool
lacks k end = true
lacks k (field j v fs) = if j == k then false else lacks k fs

-- Distinct keys of at most 128 characters.
abbrev pub Keyed : Fields → Type 0
Keyed end = Unit
Keyed (field k v fs) = (text_length k ≤ 128) × (lacks k fs ≡ true) × Keyed fs

abbrev pub AllValues : (Json → Type 0) → Fields → Type 0
AllValues P end = Unit
AllValues P (field k v fs) = P v × AllValues P fs

abbrev pub FitsValue : (Json → Type 0) → Json → Type 0
FitsValue P null = Unit
FitsValue P (bool _) = Unit
FitsValue P (num _) = Unit
FitsValue P (real _) = Unit
FitsValue P (str s) = text_length s ≤ 2000
FitsValue P (arr items) = (item_count items ≤ 128) × AllItems P items
FitsValue P (obj fs) = (field_count fs ≤ 128) × Keyed fs × AllValues P fs

-- At most so many levels; below them only the marker may stand.
abbrev pub Fits : ℕ → Json → Type 0
Fits zero v = v ≡ str "<depth-limited>"
Fits (suc left) v = FitsValue (Fits left) v

lacks-insert :
    (j k : String) (v : Json) (fs : Fields)
    → (k == j) ≡ false
    → lacks j fs ≡ true
    → lacks j (insert k v fs) ≡ true
unfolding insert
lacks-insert j k v end e h = ground arith
lacks-insert j k v (field i w fs) e h =
    ground (arith, eq_iff i j, eq_iff i k, lacks-insert j k v fs e)

insert-Keyed :
    (k : String) (v : Json) (fs : Fields) → text_length k ≤ 128 → Keyed fs → Keyed (insert k v fs)
unfolding insert
insert-Keyed k v end short keyed = (short, refl, tt)
insert-Keyed k v (field i w fs) short (short_i, new, keyed) = elim (Bool-cases (i == k)) [
  | inl e ↦ rw e (short_i, new, keyed)
  | inr e ↦ rw e (
    short_i,
    lacks-insert i k v fs (ground (arith, e, eq_iff i k, eq_iff k i)) new,
    insert-Keyed k v fs short keyed,
  )
]

field_count-insert-le :
    (k : String) (v : Json) (fs : Fields) → field_count (insert k v fs) ≤ suc (field_count fs)
unfolding insert
field_count-insert-le k v end = omega arith
field_count-insert-le k v (field i w fs) = ground (arith, field_count-insert-le k v fs)

insert-AllValues :
    (P : Json → Type 0) (k : String) (v : Json) (fs : Fields)
    → P v
    → AllValues P fs
    → AllValues P (insert k v fs)
unfolding insert
insert-AllValues P k v end h all = (h, tt)
insert-AllValues P k v (field i w fs) h (hw, all) = elim (Bool-cases (i == k)) [
  | inl e ↦ rw e (h, all)
  | inr e ↦ rw e (hw, insert-AllValues P k v fs h all)
]

-- What bounding makes, from what it makes one level down.
module _ (bound : Json → Json) (P : Json → Type 0) (made : (v : Json) → P (bound v)) where
  bound_items-AllItems :
      (n : ℕ) (js : Items)
      → (item_count (bound_items bound (take_items n js)) ≤ n)
        × AllItems P (bound_items bound (take_items n js))
  unfolding bound_items take_items
  bound_items-AllItems zero js = (omega arith, tt)
  bound_items-AllItems (suc n) nil = (omega arith, tt)
  bound_items-AllItems (suc n) (cons j js) =
      let (few, all) = bound_items-AllItems n js in (omega arith, (made j, all))

  bound_fields-AllValues :
      (n : ℕ) (out fs : Fields)
      → Keyed out
      → AllValues P out
      → (field_count (bound_fields bound out (take_fields n fs)) ≤ field_count out + n)
        × Keyed (bound_fields bound out (take_fields n fs))
        × AllValues P (bound_fields bound out (take_fields n fs))
  unfolding bound_fields take_fields
  bound_fields-AllValues zero out fs keyed all = (omega arith, keyed, all)
  bound_fields-AllValues (suc n) out end keyed all = (omega arith, keyed, all)
  bound_fields-AllValues (suc n) out (field k v fs) keyed all =
      let (few, keyed', all') =
        bound_fields-AllValues n (insert (cut 128 k) (bound v) out) fs
          (insert-Keyed (cut 128 k) (bound v) out (text_length-cut 128 k) keyed)
          (insert-AllValues P (cut 128 k) (bound v) out (made v) all) in
      (omega (arith, field_count-insert-le (cut 128 k) (bound v) out), keyed', all')

  bound_value-Fits : (v : Json) → FitsValue P (bound_value bound v)
  unfolding bound_value
  bound_value-Fits null = tt
  bound_value-Fits (bool _) = tt
  bound_value-Fits (num _) = tt
  bound_value-Fits (real _) = tt
  bound_value-Fits (str s) = text_length-cut 2000 s
  bound_value-Fits (arr items) = bound_items-AllItems 128 items
  bound_value-Fits (obj fs) =
      let (few, keyed, all) = bound_fields-AllValues 128 end fs tt tt in (omega arith, keyed, all)

pub bounded_below-Fits : (left : ℕ) (v : Json) → Fits left (bounded_below left v)
unfolding bounded_below
bounded_below-Fits zero v = refl
bounded_below-Fits (suc left) v =
    bound_value-Fits (bounded_below left) (Fits left) (bounded_below-Fits left) v

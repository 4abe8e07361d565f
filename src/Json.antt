-- ===== src/Json.antt =====
-- JSON documents as Python reads them, and the `dict` methods that the program calls on them.
-- `json.dumps` followed by `json.loads` gives a value back up to the order of keys, which no
-- operation of the model reads; columns that hold JSON text hold the value here.
use pq_migration_gateway.Prelude.{
  ◌≡◌, refl, ℕ, String, Bool, true, false, List, [], ◌∷◌, Option, none, some, arith, ◌==◌, eq_iff,
  eq_refl, if◌then◌else◌,
}
use pq_migration_gateway.Prelude.Int.{ℤ, pos}

-- `real` holds Python's `repr` of a float.
mutual
  pub data Json : Type 0 where
    null : Json
    bool : Bool → Json
    num : ℤ → Json
    real : String → Json
    str : String → Json
    arr : Items → Json
    obj : Fields → Json

  pub data Items : Type 0 where
    nil : Items
    cons : Json → Items → Items

  pub data Fields : Type 0 where
    end : Fields
    field : String → Json → Fields → Fields

-- The elements of an array, and an array of given elements.
abbrev pub elements : Items → List Json
elements nil = []
elements (cons j js) = j ∷ elements js

abbrev pub array : List Json → Items
array [] = nil
array (j ∷ js) = cons j (array js)

-- A dict display `{k: v, …}`.
abbrev pub dict : List (String × Json) → Fields
dict [] = end
dict ((k, v) ∷ kvs) = field k v (dict kvs)

-- `d.get(k)` as an option, `d.get(k, default)`, `d.get(k)`
unfoldable pub find : String → Fields → Option Json
find k end = none
find k (field j v fs) = if j == k then some v else find k fs

abbrev default_to : Json → Option Json → Json
default_to d none = d
default_to d (some v) = v

unfoldable pub get_or : String → Json → Fields → Json
unfolding find
get_or k d fs = default_to d (find k fs)

unfoldable pub get : String → Fields → Json
unfolding get_or
get k fs = get_or k null fs

-- `d[k] = v`, and `{**d, k: v}`
unfoldable pub insert : String → Json → Fields → Fields
insert k v end = field k v end
insert k v (field j w fs) = if j == k then field j v fs else field j w (insert k v fs)

-- `d.update(e)`
unfoldable pub update : Fields → Fields → Fields
unfolding insert
update d end = d
update d (field k v fs) = update (insert k v d) fs

-- `bool(v)`; a float is false exactly if its `repr` is that of a zero
abbrev pub truthy : Json → Bool
truthy null = false
truthy (bool b) = b
truthy (num (pos ℕ.zero)) = false
truthy (num _) = true
truthy (real r) = if r == "0.0" then false else if r == "-0.0" then false else true
truthy (str s) = if s == "" then false else true
truthy (arr nil) = false
truthy (arr (cons _ _)) = true
truthy (obj end) = false
truthy (obj (field _ _ _)) = true

-- `a or b`
abbrev pub or_else : Json → Json → Json
or_else a b = if truthy a then a else b

pub find-insert :
    (k j : String) (v : Json) (fs : Fields)
    → find j (insert k v fs) ≡ (if k == j then some v else find j fs)
unfolding find insert
find-insert k j v end = refl
find-insert k j v (field i w fs) =
    ground (arith, eq_iff k j, eq_iff i k, eq_iff i j, find-insert k j v fs)

pub get_or-insert_self : (k : String) (d v : Json) (fs : Fields) → get_or k d (insert k v fs) ≡ v
unfolding get_or
get_or-insert_self k d v fs = simp (find-insert, eq_refl)

-- Writing the value that a key already has changes nothing.
pub insert-insert_self :
    (k : String) (v : Json) (fs : Fields) → insert k v (insert k v fs) ≡ insert k v fs
unfolding insert
insert-insert_self k v end = ground (arith, eq_refl k)
insert-insert_self k v (field i w fs) = ground (arith, insert-insert_self k v fs)

pub elements-array : (js : List Json) → elements (array js) ≡ js
elements-array [] = refl
elements-array (j ∷ js) = rw (elements-array js)

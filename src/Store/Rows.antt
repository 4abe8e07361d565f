-- ===== src/Store/Rows.antt =====
-- Tables as lists of rows: SELECT, UPDATE, DELETE and INSERT … ON CONFLICT on one key.
use pq_migration_gateway.Prelude.{
  ℕ, suc, ◌≡◌, Bool, true, false, List, [], ◌∷◌, Option, none, some, arith, if◌then◌else◌, min, max,
  is_some, inl, inr, Bool-cases,
}

module _ {ℓ} {R : Type ℓ} where
  -- `SELECT … WHERE`, and `fetchone()`
  unfoldable pub find_row : (R → Bool) → List R → Option R
  find_row p [] = none
  find_row p (r ∷ rs) = if p r then some r else find_row p rs

  -- `UPDATE … SET … WHERE`
  unfoldable pub update_rows : (R → Bool) → (R → R) → List R → List R
  update_rows p f [] = []
  update_rows p f (r ∷ rs) = (if p r then f r else r) ∷ update_rows p f rs

  -- `DELETE … WHERE`
  unfoldable pub delete_rows : (R → Bool) → List R → List R
  delete_rows p [] = []
  delete_rows p (r ∷ rs) = let rest = delete_rows p rs in if p r then rest else r ∷ rest

  -- `INSERT … ON CONFLICT DO UPDATE`: the rows with the key are updated, or else the new row is added.
  unfoldable pub upsert_row : (R → Bool) → (R → R) → R → List R → List R
  upsert_row p f new [] = new ∷ []
  upsert_row p f new (r ∷ rs) = if p r then f r ∷ rs else r ∷ upsert_row p f new rs

-- `max(1, min(limit, most))`
abbrev pub clamp_limit : ℕ → ℕ → ℕ
clamp_limit most limit = max 1 (min limit most)

-- The value of an optional row, or the default.
abbrev pub from_row {ℓ κ} : {R : Type ℓ} {A : Type κ} → A → (R → A) → Option R → A
from_row d f none = d
from_row d f (some r) = f r

-- How many rows pass a test, for `SELECT COUNT(*)`.
unfoldable pub count_rows {ℓ} : {R : Type ℓ} → (R → Bool) → List R → ℕ
count_rows p [] = 0
count_rows p (r ∷ rs) = if p r then suc (count_rows p rs) else count_rows p rs

-- What an upsert leaves for its own key, and for a key that it does not write.
module _ {ℓ} {R : Type ℓ} (p : R → Bool) (f : R → R) (new : R) where
  pub find_row-upsert_self :
      ((r : R) → p r ≡ true → p (f r) ≡ true)
      → p new ≡ true
      → (rows : List R)
      → find_row p (upsert_row p f new rows) ≡ some (from_row new f (find_row p rows))
  unfolding find_row upsert_row
  find_row-upsert_self keeps is_new [] = ground (arith, is_new)
  find_row-upsert_self keeps is_new (r ∷ rows) = elim (Bool-cases (p r)) [
    | inl e ↦ ground (arith, e, keeps r e)
    | inr e ↦ ground (arith, e, find_row-upsert_self keeps is_new rows)
  ]

  pub find_row-upsert_other :
      (q : R → Bool)
      → ((r : R) → p r ≡ true → (q r ≡ false) × (q (f r) ≡ false))
      → q new ≡ false
      → (rows : List R) → find_row q (upsert_row p f new rows) ≡ find_row q rows
  unfolding find_row upsert_row
  find_row-upsert_other q apart not_new [] = ground (arith, not_new)
  find_row-upsert_other q apart not_new (r ∷ rows) = elim (Bool-cases (p r)) [
    | inl e ↦ ground (arith, e, apart r e)
    | inr e ↦ ground (arith, e, find_row-upsert_other q apart not_new rows)
  ]

-- An update of the rows with a key, seen from that key.
pub find_row-update_self {ℓ} :
    {R : Type ℓ} (p : R → Bool) (f : R → R) (r : R)
    → ((x : R) → p x ≡ true → p (f x) ≡ true)
    → (rows : List R) → find_row p rows ≡ some r
    → find_row p (update_rows p f rows) ≡ some (f r)
unfolding find_row update_rows
find_row-update_self p f r keeps [] e = cc
find_row-update_self p f r keeps (x ∷ rows) e = elim (Bool-cases (p x)) [
  | inl found ↦ ground (arith, found, keeps x found)
  | inr other ↦ ground (arith, other, find_row-update_self p f r keeps rows)
]

-- A row that is there is still there after an upsert, and the row that is written is there.
module _ {ℓ} {R : Type ℓ} (p : R → Bool) (f : R → R) (new : R) where
  pub is_some-upsert :
      (q : R → Bool)
      → ((r : R) → p r ≡ true → q r ≡ true → q (f r) ≡ true)
      → (rows : List R) → is_some (find_row q rows) ≡ true
      → is_some (find_row q (upsert_row p f new rows)) ≡ true
  unfolding find_row upsert_row
  is_some-upsert q keeps [] e = cc
  is_some-upsert q keeps (r ∷ rows) e = elim (Bool-cases (p r)) [
    | inr other ↦ ground (arith, other, is_some-upsert q keeps rows)
    | inl mine ↦ elim (Bool-cases (q r)) [
      | inl here ↦ ground (arith, mine, here, keeps r mine here)
      | inr there ↦ ground (arith, mine, there)
    ]
  ]

  pub is_some-upsert_self :
      (q : R → Bool)
      → ((r : R) → p r ≡ true → q (f r) ≡ true)
      → q new ≡ true
      → (rows : List R) → is_some (find_row q (upsert_row p f new rows)) ≡ true
  unfolding find_row upsert_row
  is_some-upsert_self q keeps is_new [] = ground (arith, is_new)
  is_some-upsert_self q keeps is_new (r ∷ rows) = elim (Bool-cases (p r)) [
    | inl mine ↦ ground (arith, mine, keeps r mine)
    | inr other ↦ ground (arith, other, is_some-upsert_self q keeps is_new rows)
  ]

pub is_some-update {ℓ} :
    {R : Type ℓ} (q p : R → Bool) (f : R → R)
    → ((r : R) → q r ≡ true → q (f r) ≡ true)
    → (rows : List R) → is_some (find_row q rows) ≡ true
    → is_some (find_row q (update_rows p f rows)) ≡ true
unfolding find_row update_rows
is_some-update q p f keeps [] e = cc
is_some-update q p f keeps (r ∷ rows) e = elim (Bool-cases (q r)) [
  | inl here ↦ ground (arith, here, keeps r here)
  | inr other ↦ ground (arith, other, is_some-update q p f keeps rows)
]

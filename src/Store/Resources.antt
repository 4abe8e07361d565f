-- ===== src/Store/Resources.antt =====
-- Service and policy resources and control settings in manager/config_store.py:
-- `upsert_resource`, `get_resource`, `list_resources`, `delete_resource`, `set_setting`,
-- `get_setting` and `sync_canonical_resources`.
use Prim.Native.Nat.{Ordering}
use Prim.Native.String.{compare}
use pq_migration_gateway.Prelude.{
  ℕ, suc, String, Bool, true, false, List, [], ◌∷◌, Option, some, ◌==◌, if◌then◌else◌, take,
  is_some, mem, is_some,
}
use pq_migration_gateway.Prelude.Int.{pos}
use pq_migration_gateway.Result.{Result, ok, err, key_error, value_error, ◌>>◌, require}
use pq_migration_gateway.Json.{Json, Fields, num, obj, dict}
use pq_migration_gateway.Store.Rows.{find_row, delete_rows, upsert_row, clamp_limit, from_row}
use pq_migration_gateway.Store.Tables.{ResourceRow, SettingRow, Store, name_id}
use pq_migration_gateway.Store.Releases.{audit_conn, or_raise, version_json}

pub data Kind : Type 0 where
  service policy : Kind

-- `_resource_table`
unfoldable pub kind_of : String → Result Kind
kind_of k =
    if k == "service"
    then ok service
    else if k == "policy"
    then ok policy
    else err (value_error "unsupported resource kind")

abbrev pub kind_name : Kind → String
kind_name service = "service"
kind_name policy = "policy"

unfoldable pub table : Kind → Store → List ResourceRow
table service st = st.service_resources
table policy st = st.policy_resources

unfoldable pub with_table : Kind → List ResourceRow → Store → Store
with_table service rows st = record st { service_resources = rows }
with_table policy rows st = record st { policy_resources = rows }

abbrev pub has_id : String → ResourceRow → Bool
has_id id row = row.id == id

unfoldable pub find_resource : Kind → String → Store → Option ResourceRow
unfolding table
find_resource kind id st = find_row (has_id id) (table kind st)

-- `f"{kind}.upsert"`, `f"{kind}.delete"`
abbrev upsert_action : Kind → String
upsert_action service = "service.upsert"
upsert_action policy = "policy.upsert"

abbrev delete_action : Kind → String
delete_action service = "service.delete"
delete_action policy = "policy.delete"

-- The row that an upsert leaves: a known resource keeps its creation time and gets the next revision.
abbrev pub next_row : String → Json → String → Option ℕ → ℕ → Option ResourceRow → ResourceRow
next_row id spec actor source now existing = record {
  id = id;
  spec = spec;
  revision = suc (from_row 0 (λ r. r.revision) existing);
  source_config_version = source;
  created_at = from_row now (λ r. r.created_at) existing;
  updated_at = now;
  actor = actor;
}

unfoldable pub upsert_resource : Kind → String → Json → String → Option ℕ → ℕ → Store → Store
unfolding find_resource with_table audit_conn
upsert_resource kind id spec actor source now st =
    let row = next_row id spec actor source now (find_resource kind id st) in
    audit_conn now actor (upsert_action kind) (kind_name kind) (name_id id)
      (obj (
        dict (
          ("revision", num (pos row.revision))
          ∷ ("source_config_version", version_json source)
          ∷ [])))
      (with_table kind (upsert_row (has_id id) (λ _. row) row (table kind st)) st)

unfoldable pub get_resource : Kind → String → Store → Result ResourceRow
get_resource kind id st = or_raise (key_error id) (find_resource kind id st)

-- `ORDER BY id`, in the byte order of SQLite's BINARY collation
abbrev not_after : String → String → Bool
not_after a b = elim (compare a b) [ Ordering.gt ↦ false | _ ↦ true ]

unfoldable pub insert_row : ResourceRow → List ResourceRow → List ResourceRow
insert_row r [] = r ∷ []
insert_row r (x ∷ xs) = if not_after r.id x.id then r ∷ x ∷ xs else x ∷ insert_row r xs

unfoldable pub sort_rows : List ResourceRow → List ResourceRow
unfolding insert_row
sort_rows [] = []
sort_rows (r ∷ rs) = insert_row r (sort_rows rs)

-- `list_resources`, whose default limit is 500
unfoldable pub list_resources : Kind → ℕ → Store → List ResourceRow
unfolding sort_rows
list_resources kind limit st = take (clamp_limit 1000 limit) (sort_rows (table kind st))

unfoldable pub delete_resource : Kind → String → String → ℕ → Store → Result Store
unfolding find_resource with_table audit_conn
delete_resource kind id actor now st = do
  require (is_some (find_resource kind id st)) (key_error id)
  ok (
      audit_conn now actor (delete_action kind) (kind_name kind) (name_id id) (obj Fields.end)
        (with_table kind (delete_rows (has_id id) (table kind st)) st))

abbrev pub has_key : String → SettingRow → Bool
has_key key row = row.setting_key == key

unfoldable pub set_setting : String → Json → String → ℕ → Store → Store
set_setting key value actor now st =
    let row : SettingRow = record {
      setting_key = key;
      value = value;
      updated_at = now;
      actor = actor;
    } in
    record st { control_settings = upsert_row (has_key key) (λ _. row) row st.control_settings }

unfoldable pub get_setting : String → Json → Store → Json
get_setting key default st =
    from_row default (λ r. r.value) (find_row (has_key key) st.control_settings)

-- The resources that are no longer among `ids` are deleted, one transaction each. A listed resource
-- is in the table, so `delete_resource` does not raise; the store before it is kept if it did.
abbrev pub after : Store → Result Store → Store
after st (ok st') = st'
after st (err _) = st

unfoldable pub delete_stale : Kind → List String → List ResourceRow → String → ℕ → Store → Store
unfolding delete_resource
delete_stale kind ids [] actor now st = st
delete_stale kind ids (r ∷ rs) actor now st =
    delete_stale kind ids rs actor now
      (if mem r.id ids then st else after st (delete_resource kind r.id actor now st))

unfoldable pub upsert_all : Kind → List (String × Json) → String → Option ℕ → ℕ → Store → Store
unfolding upsert_resource
upsert_all kind [] actor version now st = st
upsert_all kind ((id, spec) ∷ rest) actor version now st =
    upsert_all kind rest actor version now (upsert_resource kind id spec actor version now st)

abbrev pub ids_of : List (String × Json) → List String
ids_of [] = []
ids_of ((id, _) ∷ rest) = id ∷ ids_of rest

-- `sync_canonical_resources`, for services and policies given with their ids
unfoldable pub sync_canonical_resources :
    Json → List (String × Json) → List (String × Json) → String → ℕ → ℕ → Store → Store
unfolding set_setting delete_stale list_resources upsert_all
sync_canonical_resources defaults services policies actor version now st =
    let st₁ = set_setting "service_defaults" defaults actor now st in
    let st₂ =
      delete_stale service (ids_of services) (list_resources service 500 st₁) actor now st₁ in
    let st₃ = delete_stale policy (ids_of policies) (list_resources policy 500 st₂) actor now st₂ in
    let st₄ = upsert_all service services actor (some version) now st₃ in
    upsert_all policy policies actor (some version) now st₄

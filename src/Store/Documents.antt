-- ===== src/Store/Documents.antt =====
-- `document_from_resources` of manager/config_store.py: the stored services, with the stored policies
-- merged in, as one document to publish.
use pq_migration_gateway.Prelude.{
  String, Bool, true, false, ◌||◌, List, [], ◌∷◌, Option, none, some, ◌==◌, if◌then◌else◌, is_some,
}
use pq_migration_gateway.Result.{
  Result, ok, err, value_error, attribute_error, type_error, ◌>>=◌, ◌>>◌, require,
}
use pq_migration_gateway.Json.{
  Json, Fields, str, arr, obj, array, find, get, get_or, insert, update, dict, truthy,
}
use pq_migration_gateway.Store.Rows.{from_row}
use pq_migration_gateway.Store.Inventory.{text}
use pq_migration_gateway.Store.Tables.{ResourceRow, Store}
use pq_migration_gateway.Store.Resources.{Kind, list_resources, get_setting}

abbrev or_empty : Option Json → Json
or_empty none = obj Fields.end
or_empty (some v) = v

-- `service.setdefault(key, {}).update(changes)`
update_section : String → Fields → Fields → Result Fields
update_section key changes fs = elim (or_empty (find key fs)) [
  | obj section ↦ ok (insert key (obj (update section changes)) fs)
  | _ ↦ err (attribute_error "update")
]

-- `if key in policy: section[name] = policy[key]`
copy_key : String → String → Fields → Fields → Fields
copy_key key name rules section = from_row section (λ v. insert name v section) (find key rules)

-- `section = service.setdefault(key, {})`, then item assignments, if there is one to make
assign_section : String → Bool → (Fields → Fields) → Fields → Result Fields
assign_section key assigns change fs = elim (or_empty (find key fs)) [
  | obj section ↦ ok (insert key (obj (change section)) fs)
  | other ↦ if assigns then err (type_error "item assignment") else ok (insert key other fs)
]

has_key : String → Fields → Bool
has_key key fs = is_some (find key fs)

merge_rollout : Fields → Fields → Result Fields
unfolding update_section assign_section copy_key has_key
merge_rollout rules spec = elim (get "rollout" rules) [
  | obj rollout ↦ update_section "rollout" rollout spec
  | _ ↦
      assign_section "rollout"
        (has_key "rollout_policy" rules
          || has_key "hybrid_percentage" rules
          || has_key "fallback_allowed" rules)
        (λ section. copy_key "fallback_allowed" "fallback_allowed" rules (
          copy_key "hybrid_percentage" "hybrid_percentage" rules
            (copy_key "rollout_policy" "policy" rules section)))
        spec
]

merge_tls : Fields → Fields → Result Fields
unfolding update_section assign_section copy_key has_key
merge_tls rules spec = elim (get "downstream_tls" rules) [
  | obj tls ↦ update_section "downstream_tls" tls spec
  | _ ↦
      assign_section "downstream_tls" (has_key "tls_mode" rules || has_key "groups" rules)
        (λ section. copy_key "groups" "groups" rules (copy_key "tls_mode" "mode" rules section))
        spec
]

-- A policy's changes to the service that it names.
unfoldable pub merge_policy : Fields → Fields → Result Fields
unfolding merge_rollout merge_tls
merge_policy rules spec = do spec' ← merge_rollout rules spec; merge_tls rules spec'

unfoldable pub find_last : String → List (String × Fields) → Option Fields
find_last k [] = none
find_last k ((j, v) ∷ rest) = elim (find_last k rest) [
  | some w ↦ some w
  | none ↦ if j == k then some v else none
]

module _ (python_str : Json → String) where
  -- `policies`: the specs of the policy resources by the service that they name, the last one winning
  unfoldable pub policies_by_service : List ResourceRow → Result (List (String × Fields))
  policies_by_service [] = ok []
  policies_by_service (r ∷ rs) = elim r.spec [
    | obj spec ↦ (do
      rest ← policies_by_service rs
      ok ((text python_str (get_or "service_id" (str r.id) spec), spec) ∷ rest))
    | _ ↦ err (attribute_error "get")
  ]

  -- One service, with the policy that names it, if that is not empty.
  unfoldable pub service_document : List (String × Fields) → Fields → Result Fields
  unfolding find_last merge_policy
  service_document rules spec = elim (find_last (text python_str (get "id" spec)) rules) [
    | none ↦ ok spec
    | some r ↦ if truthy (obj r) then merge_policy r spec else ok spec
  ]

  unfoldable pub service_documents : List (String × Fields) → List ResourceRow → Result (List Json)
  unfolding service_document
  service_documents rules [] = ok []
  service_documents rules (r ∷ rs) = elim r.spec [
    | obj spec ↦ (do
      first ← service_document rules spec
      rest ← service_documents rules rs
      ok (obj first ∷ rest))
    | _ ↦ err (attribute_error "get")
  ]

abbrev filled : List ResourceRow → Bool
filled [] = false
filled (_ ∷ _) = true

-- `document_from_resources`
unfoldable pub document_from_resources : (Json → String) → Option Json → Store → Result Json
unfolding list_resources service_documents policies_by_service get_setting
document_from_resources python_str defaults st = do
  let rows = list_resources Kind.service 500 st
  require (filled rows) (value_error "no service resources are registered")
  rules ← policies_by_service python_str (list_resources Kind.policy 500 st)
  services ← service_documents python_str rules rows
  ok (
      obj (
        dict (
          ("schema_version", str "4.0")
          ∷ (
            "defaults",
            from_row (get_setting "service_defaults" (obj Fields.end) st) (λ d. d) defaults,
          )
          ∷ ("services", arr (array services))
          ∷ [])))

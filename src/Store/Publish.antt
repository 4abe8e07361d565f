-- ===== src/Store/Publish.antt =====
-- How much `document_from_resources` of manager/config_store.py publishes.
use pq_migration_gateway.Prelude.{
  ◌≡◌, refl, suc, List, [], ◌∷◌, length, length-take, min, arith, ap, ◌∙◌, Option, inl, inr, String,
}
use pq_migration_gateway.Result.{ok, Result-cases}
use pq_migration_gateway.Json.{Json, null, Fields, arr, obj, array, find, get, get_or}
use pq_migration_gateway.Store.Tables.{ResourceRow, Store}
use pq_migration_gateway.Store.Resources.{Kind, list_resources, sort_rows, insert_row, table}
use pq_migration_gateway.Store.Documents.{
  document_from_resources, service_documents, policies_by_service,
}

length-insert_row :
    (r : ResourceRow) (rows : List ResourceRow) → length (insert_row r rows) ≡ suc (length rows)
unfolding insert_row
length-insert_row r [] = refl
length-insert_row r (x ∷ rows) = ground (arith, length-insert_row r rows)

length-sort_rows : (rows : List ResourceRow) → length (sort_rows rows) ≡ length rows
unfolding sort_rows
length-sort_rows [] = refl
length-sort_rows (r ∷ rows) =
    ground (arith, length-insert_row r (sort_rows rows), length-sort_rows rows)

length-service_documents :
    (python_str : Json → String) (rules : List (String × Fields)) (rows : List ResourceRow)
    {js : List Json}
    → service_documents python_str rules rows ≡ ok js
    → length js ≡ length rows
unfolding service_documents
length-service_documents python_str rules [] h = ground (arith, h)
length-service_documents python_str rules (r ∷ rows) h =
    elim (Result-cases (service_documents python_str rules rows)) [
      | inr (x, e) ↦ absurd (ground (arith, e, h))
      | inl (js, e) ↦ ground (arith, e, h, length-service_documents python_str rules rows e)
    ]

-- The services of a document.
abbrev pub published : Json → Json
published (obj fs) = get "services" fs
published _ = null

-- A document from the stored resources has as many services as there are service resources, but
-- never more than 500: the services after the first 500, in the order of their ids, are left out.
pub document_from_resources-length :
    (python_str : Json → String) (defaults : Option Json) (st : Store) {doc : Json}
    → document_from_resources python_str defaults st ≡ ok doc
    → (js : List Json) × (published doc ≡ arr (array js))
      × (length js ≡ min 500 (length st.service_resources))
unfolding document_from_resources list_resources table find get get_or
document_from_resources-length python_str defaults st h =
    let rows = list_resources Kind.service 500 st in
    elim (Result-cases (policies_by_service python_str (list_resources Kind.policy 500 st))) [
      | inr (x, e) ↦ absurd (ground (arith, e, h))
      | inl (rules, r) ↦ elim (Result-cases (service_documents python_str rules rows)) [
        | inr (x, e) ↦ absurd (ground (arith, r, e, h))
        | inl (js, e) ↦ (
          js,
          ground (arith, r, e, h),
          length-service_documents python_str rules rows e
              ∙ length-take 500 (sort_rows st.service_resources)
              ∙ ap (min 500) (length-sort_rows st.service_resources),
        )
      ]
    ]

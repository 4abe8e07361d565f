-- ===== src/Store/Tests.antt =====
-- Counters and documents of concrete databases.
use pq_migration_gateway.Prelude.{◌≡◌, refl, List, [], ◌∷◌, length, min, none, some}
use pq_migration_gateway.Prelude.Int.{pos}
use pq_migration_gateway.Result.{ok}
use pq_migration_gateway.Json.{Json, Fields, str, obj, arr, array, dict, get, get_or, find}
use pq_migration_gateway.Store.Rows.{find_row}
use pq_migration_gateway.Store.Tables.{Store, empty_store}
use pq_migration_gateway.Store.Metrics.{metric_value, increment_metric}
use pq_migration_gateway.Store.Metrics.Counts.{or_nothing, increment_metric-metric_value}
use pq_migration_gateway.Store.Resources.{list_resources, sort_rows, insert_row, table, get_setting}
use pq_migration_gateway.Store.Documents.{
  document_from_resources, service_document, find_last, service_documents, policies_by_service,
}
use pq_migration_gateway.Store.Publish.{published, document_from_resources-length}

increment_metric-metric_value_example :
    metric_value "hits" [] (increment_metric "hits" (pos 2) [] "" 5 empty_store)
    ≡ some (or_nothing (metric_value "hits" [] empty_store) (pos 2))
increment_metric-metric_value_example =
    increment_metric-metric_value "hits" (pos 2) [] "" 5 empty_store

abbrev one_service : Store
one_service = record empty_store {
  service_resources =
      record {
        id = "bank";
        spec = obj (dict (("id", str "bank") ∷ []));
        revision = 1;
        source_config_version = none;
        created_at = 1;
        updated_at = 1;
        actor = "ops";
      }
      ∷ [];
}

abbrev one_document : Json
one_document = obj (
    dict (
      ("schema_version", str "4.0")
      ∷ ("defaults", obj Fields.end)
      ∷ ("services", arr (array (obj (dict (("id", str "bank") ∷ [])) ∷ [])))
      ∷ []))

one_document_built : document_from_resources (λ v. "") none one_service ≡ ok one_document
unfolding document_from_resources list_resources sort_rows insert_row table service_documents
    policies_by_service service_document find_last get_setting find_row get get_or find
one_document_built = refl

document_from_resources-length_example :
    (js : List Json) × (published one_document ≡ arr (array js))
    × (length js ≡ min 500 (length one_service.service_resources))
document_from_resources-length_example =
    document_from_resources-length (λ v. "") none one_service one_document_built

-- ===== src/Gateway/Registry.antt =====
-- `AdapterRegistry` and `default_registry` of gateway/adapters/registry.py, with the classes of
-- gateway/adapters/stream.py. Adapters of other packages, named by PQ_GATEWAY_ADAPTERS, are not
-- modelled.
use pq_migration_gateway.Prelude.{
  String, Bool, false, not, ◌&&◌, List, [], ◌∷◌, Option, none, some, ◌==◌, if◌then◌else◌, is_some,
}
use pq_migration_gateway.Result.{Result, ok, err, config_error, ◌>>=◌, ◌>>◌, require}

-- The adapter's class; for a stream its `name` and its `application_protocol`.
pub data Adapter : Type 0 where
  http_adapter : Adapter
  stream_adapter : String → String → Adapter

abbrev pub adapter_name : Adapter → String
adapter_name http_adapter = "http"
adapter_name (stream_adapter name protocol) = name

-- `_adapters`
abbrev pub Registry : Type 0
Registry = List (String × Adapter)

unfoldable pub find_adapter : String → Registry → Option Adapter
find_adapter name [] = none
find_adapter name ((key, a) ∷ rest) = if key == name then some a else find_adapter name rest

unfoldable pub set_adapter : String → Adapter → Registry → Registry
set_adapter name a [] = (name, a) ∷ []
set_adapter name a ((key, b) ∷ rest) =
    if key == name then (key, a) ∷ rest else (key, b) ∷ set_adapter name a rest

-- `register`
unfoldable pub register : Adapter → Bool → Registry → Result Registry
unfolding find_adapter set_adapter
register a replace registry = do
  require (not (is_some (find_adapter (adapter_name a) registry) && not replace))
      (config_error "adapter already registered")
  ok (set_adapter (adapter_name a) a registry)

-- `get`
unfoldable pub get_adapter : String → Registry → Result Adapter
unfolding find_adapter
get_adapter name registry = elim (find_adapter name registry) [
  | none ↦ err (config_error "unsupported protocol adapter")
  | some a ↦ ok a
]

abbrev pub built_in : List Adapter
built_in =
    http_adapter
    ∷ stream_adapter "generic-stream" "tcp"
    ∷ stream_adapter "mqtt" "mqtt"
    ∷ stream_adapter "tcp" "tcp"
    ∷ stream_adapter "legacy-line" "legacy-line"
    ∷ stream_adapter "postgres" "postgres"
    ∷ stream_adapter "mysql" "mysql"
    ∷ stream_adapter "redis" "redis"
    ∷ stream_adapter "kafka" "kafka"
    ∷ stream_adapter "amqp" "amqp"
    ∷ []

unfoldable pub register_all : List Adapter → Registry → Result Registry
unfolding register
register_all [] registry = ok registry
register_all (a ∷ rest) registry = do
  registry' ← register a false registry
  register_all rest registry'

-- `default_registry`, without external adapters
unfoldable pub default_registry : Result Registry
unfolding register_all
default_registry = register_all built_in []

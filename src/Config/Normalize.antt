-- ===== src/Config/Normalize.antt =====
-- `normalize_config` and `compatibility_view` of gateway/model.py.
use pq_migration_gateway.Prelude.{
  ℕ, String, append, Bool, false, not, ◌&&◌, ◌||◌, List, [], ◌∷◌, map, ◌==◌, if◌then◌else◌, eqb,
  mem,
}
use pq_migration_gateway.Prelude.Int.{pos}
use pq_migration_gateway.Prelude.Text.{lower}
use pq_migration_gateway.Result.{Result, ok, err, config_error, ◌>>=◌, ◌>>◌, require}
use pq_migration_gateway.Json.{
  Json, Fields, num, real, str, arr, obj, elements, array, get, get_or, insert, dict,
}
use pq_migration_gateway.Config.Fields.{safe_name, safe_token, string, optional_string, as_object}
use pq_migration_gateway.Config.Service.{
  Service, listen_of, downstream_of, upstream_of, timeouts_of, rollout_of, audit_of, service_fields,
}
use pq_migration_gateway.Config.Legacy.{legacy_to_v4}

-- The sets `names` and `listeners` that the loop has filled so far.
pub record Seen : Type 0 where
  pub names : List String
  pub listeners : List (String × ℕ)

abbrev pub nothing_seen : Seen
nothing_seen = record { names = []; listeners = [] }

-- `(address, port) in listeners`
abbrev pub mem_listener : String → ℕ → List (String × ℕ) → Bool
mem_listener a p [] = false
mem_listener a p ((b, q) ∷ rest) = (a == b && eqb p q) || mem_listener a p rest

-- The loop body, for one `raw` and what was seen before.
unfoldable pub normalize_raw : Fields → Seen → Json → Result Service
normalize_raw defaults seen raw_json = do
  raw ← as_object raw_json "each service must be an object"
  sid ← string safe_name (get "id" raw) "service.id"
  require (not (mem sid seen.names)) (config_error "duplicate service id")
  adapter ← string safe_name (get_or "adapter" (str "http") raw) "adapter"
  listen ← listen_of sid raw
  require (not (mem_listener listen.address listen.port seen.listeners))
      (config_error "duplicate listener")
  downstream ← downstream_of defaults raw
  (upstream, sni_raw) ← upstream_of defaults raw
  timeouts ← timeouts_of defaults raw
  rollout ← rollout_of downstream.mode downstream.groups raw
  sni ← optional_string sni_raw "upstream.tls.sni"
  audit ← audit_of (get_or "audit" (obj Fields.end) raw)
  ok (record {
    id = sid;
    adapter = lower adapter;
    listen = listen;
    downstream_tls = downstream;
    upstream = upstream;
    sni = sni;
    timeouts = timeouts;
    rollout = rollout;
    audit_enabled = audit;
    protocol_options = get_or "protocol_options" (obj Fields.end) raw;
  })

-- `names.add(service_id)`, `listeners.add(key)`
abbrev pub see : Service → Seen → Seen
see s seen = record {
  names = s.id ∷ seen.names;
  listeners = (s.listen.address, s.listen.port) ∷ seen.listeners;
}

-- The loop over `services`.
unfoldable pub services_of : Fields → Seen → List Json → Result (List Service)
services_of defaults seen [] = ok []
services_of defaults seen (raw ∷ raws) = do
  s ← normalize_raw defaults seen raw
  rest ← services_of defaults (see s seen) raws
  ok (s ∷ rest)

pub record Canonical : Type 0 where
  pub defaults : Fields
  pub services : List Service

-- `config.get("version") == 3`
unfoldable pub is_version3 : Fields → Bool
is_version3 config = elim (get "version" config) [
  | num (pos n) ↦ eqb n 3
  | real r ↦ r == "3.0"
  | _ ↦ false
]

-- `str(config.get("schema_version", config.get("version", ""))) in {"4", "4.0"}`
unfoldable pub is_schema4 : Fields → Bool
is_schema4 config = elim (get_or "schema_version" (get_or "version" (str "") config) config) [
  | num (pos n) ↦ eqb n 4
  | real r ↦ r == "4.0"
  | str s ↦ s == "4" || s == "4.0"
  | _ ↦ false
]

-- `not isinstance(services, list) or not services`
unfoldable pub service_list : Json → Result (List Json)
service_list (arr items) = elim (elements items) [
  | [] ↦ err (config_error "services must be a non-empty list")
  | j ∷ js ↦ ok (j ∷ js)
]
service_list _ = err (config_error "services must be a non-empty list")

-- What follows the choice of the version: the document is now a version 4 one.
unfoldable pub normalize_v4 : Fields → Result Canonical
normalize_v4 config = do
  defaults ← as_object (get_or "defaults" (obj Fields.end) config) "defaults"
  raws ← service_list (get "services" config)
  resolver ←
      string safe_token (get_or "dns_resolver" (str "127.0.0.11") defaults) "defaults.dns_resolver"
  services ← services_of defaults nothing_seen raws
  ok (record { defaults = insert "dns_resolver" (str resolver) defaults; services = services })

normalize_fields : Fields → Result Canonical
normalize_fields config =
    if is_version3 config
    then (do v4 ← legacy_to_v4 config; normalize_v4 v4)
    else if is_schema4 config
    then normalize_v4 config
    else err (config_error "services config must use version 3 or schema_version 4.0")

unfoldable pub normalize_config : Json → Result Canonical
unfolding normalize_fields
normalize_config (obj config) = normalize_fields config
normalize_config _ = err (config_error "configuration root must be an object")

-- The `dict` that `normalize_config` returns.
unfoldable pub document_fields : Canonical → Fields
document_fields c = dict (
    ("schema_version", str "4.0")
    ∷ ("defaults", obj c.defaults)
    ∷ ("services", arr (array (map (λ s. obj (service_fields s)) c.services)))
    ∷ [])

unfoldable pub document : Canonical → Json
unfolding document_fields
document c = obj (document_fields c)

-- `":".join(groups)`
unfoldable pub join_colon : List String → String
join_colon [] = ""
join_colon (g ∷ []) = g
join_colon (g ∷ h ∷ gs) = append g (append ":" (join_colon (h ∷ gs)))

pub record ViewRow : Type 0 where
  pub name : String
  pub protocol : String
  pub application_protocol : String
  pub listen_port : ℕ
  pub server_name : String
  pub tls_groups : String

unfoldable pub view_row : Service → ViewRow
unfolding join_colon
view_row s = record {
  name = s.id;
  protocol = if s.adapter == "http" then "http" else "stream";
  application_protocol = s.adapter;
  listen_port = s.listen.port;
  server_name = s.listen.server_name;
  tls_groups = join_colon s.downstream_tls.groups;
}

unfoldable pub compatibility_view : Json → Result (List ViewRow)
unfolding normalize_config view_row
compatibility_view config = do c ← normalize_config config; ok (map view_row c.services)

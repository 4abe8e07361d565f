-- ===== src/Gateway/Render.antt =====
-- `render` of gateway/renderer.py.
use pq_migration_gateway.Prelude.{String, List, [], ◌∷◌, ◌++◌, append}
use pq_migration_gateway.Result.{Result, ok, err, type_error, ◌>>=◌, ◌>>◌}
use pq_migration_gateway.Json.{Json, str, get}
use pq_migration_gateway.Config.Service.{Service}
use pq_migration_gateway.Config.Normalize.{normalize_config}
use pq_migration_gateway.Gateway.Text.{concat}
use pq_migration_gateway.Gateway.Http.{render_http, validate_http}
use pq_migration_gateway.Gateway.Stream.{
  validate_stream, app_protocol, render_log_format, render_stream,
}
use pq_migration_gateway.Gateway.Registry.{
  Adapter, http_adapter, stream_adapter, Registry, get_adapter, default_registry,
}

-- The lists that the loop fills.
pub record Parts : Type 0 where
  pub http_servers : List String
  pub stream_formats : List String
  pub stream_servers : List String

abbrev no_parts : Parts
no_parts = record { http_servers = []; stream_formats = []; stream_servers = [] }

-- The loop body: `adapter.validate`, then `adapter.render`.
unfoldable pub render_service : (Json → String) → Adapter → Service → Parts → Result Parts
render_service python_str http_adapter s p = do
  validate_http s
  ok (record p { http_servers = p.http_servers ++ (render_http s ∷ []) })
render_service python_str (stream_adapter name protocol) s p = do
  validate_stream s
  app ← app_protocol python_str protocol s
  ok (record p {
    stream_formats = p.stream_formats ++ (render_log_format app s ∷ []);
    stream_servers = p.stream_servers ++ (render_stream s ∷ []);
  })

unfoldable pub render_services : (Json → String) → Registry → List Service → Parts → Result Parts
unfolding render_service
render_services python_str registry [] p = ok p
render_services python_str registry (s ∷ ss) p = do
  adapter ← get_adapter s.adapter registry
  p' ← render_service python_str adapter s p
  render_services python_str registry ss p'

-- The `stream` block, if there is a stream service.
unfoldable pub render_streams : String → Parts → String
render_streams resolver p = elim p.stream_servers [
  | [] ↦ ""
  | _ ∷ _ ↦ concat (
      "\n"
      ∷ "stream {\n"
      ∷ "    resolver "
      ∷ resolver
      ∷ " valid=30s ipv6=off;\n"
      ∷ concat p.stream_formats
      ∷ "\n"
      ∷ concat p.stream_servers
      ∷ "\n"
      ∷ "}\n"
      ∷ [])
]

unfoldable pub render_parts : String → Parts → String
render_parts resolver p = concat (
    "# Generated by PQC Gateway Framework v3.7. Do not edit.\n"
    ∷ "worker_processes auto;\n"
    ∷ "pid /tmp/nginx.pid;\n"
    ∷ "\n"
    ∷ "events {\n"
    ∷ "    worker_connections 16384;\n"
    ∷ "    multi_accept on;\n"
    ∷ "}\n"
    ∷ "\n"
    ∷ "http {\n"
    ∷ "    include /opt/nginx/conf/mime.types;\n"
    ∷ "    default_type application/octet-stream;\n"
    ∷ "    client_body_temp_path /var/cache/nginx/client_temp;\n"
    ∷ "    proxy_temp_path /var/cache/nginx/proxy_temp;\n"
    ∷ "    fastcgi_temp_path /var/cache/nginx/fastcgi_temp;\n"
    ∷ "    uwsgi_temp_path /var/cache/nginx/uwsgi_temp;\n"
    ∷ "    scgi_temp_path /var/cache/nginx/scgi_temp;\n"
    ∷ "    log_format pq_access escape=json\n"
    ∷ "        '{'\n"
    ∷ "        '\"ts\":\"$time_iso8601\",'\n"
    ∷ "        '\"protocol_type\":\"http\",'\n"
    ∷ "        '\"application_protocol\":\"$pq_application_protocol\",'\n"
    ∷ "        '\"service\":\"$pq_service_name\",'\n"
    ∷ "        '\"configured_groups\":\"$pq_configured_groups\",'\n"
    ∷ "        '\"server_name\":\"$server_name\",'\n"
    ∷ "        '\"server_port\":$server_port,'\n"
    ∷ "        '\"remote_addr\":\"$remote_addr\",'\n"
    ∷ "        '\"request_id\":\"$request_id\",'\n"
    ∷ "        '\"method\":\"$request_method\",'\n"
    ∷ "        '\"uri\":\"$request_uri\",'\n"
    ∷ "        '\"status\":$status,'\n"
    ∷ "        '\"bytes_sent\":$bytes_sent,'\n"
    ∷ "        '\"request_time\":$request_time,'\n"
    ∷ "        '\"upstream_addr\":\"$upstream_addr\",'\n"
    ∷ "        '\"upstream_status\":\"$upstream_status\",'\n"
    ∷ "        '\"upstream_response_time\":\"$upstream_response_time\",'\n"
    ∷ "        '\"ssl_protocol\":\"$ssl_protocol\",'\n"
    ∷ "        '\"ssl_cipher\":\"$ssl_cipher\",'\n"
    ∷ "        '\"ssl_curve\":\"$ssl_curve\",'\n"
    ∷ "        '\"ssl_server_name\":\"$ssl_server_name\",'\n"
    ∷ "        '\"client_verify\":\"$ssl_client_verify\"'\n"
    ∷ "        '}';\n"
    ∷ "    access_log /var/log/nginx/access.log pq_access;\n"
    ∷ "    error_log /var/log/nginx/error.log info;\n"
    ∷ "    sendfile on;\n"
    ∷ "    tcp_nopush on;\n"
    ∷ "    keepalive_timeout 65s;\n"
    ∷ "    server_tokens off;\n"
    ∷ "    resolver "
    ∷ resolver
    ∷ " valid=30s ipv6=off;\n"
    ∷ "\n"
    ∷ "    server {\n"
    ∷ "        listen 127.0.0.1:18081;\n"
    ∷ "        server_name _;\n"
    ∷ "        location = /nginx_status {\n"
    ∷ "            stub_status;\n"
    ∷ "            access_log off;\n"
    ∷ "        }\n"
    ∷ "    }\n"
    ∷ concat p.http_servers
    ∷ "\n"
    ∷ "}\n"
    ∷ [])

-- A text of the canonical document; `normalize_config` has put the resolver there.
abbrev text_of : Json → Result String
text_of (str s) = ok s
text_of _ = err (type_error "dns_resolver")

-- `render`, with the built-in adapters
unfoldable pub render : (Json → String) → Json → Result String
unfolding render_services
render python_str config = do
  canonical ← normalize_config config
  registry ← default_registry
  p ← render_services python_str registry canonical.services no_parts
  resolver ← text_of (get "dns_resolver" canonical.defaults)
  ok (append (render_parts resolver p) (render_streams resolver p))

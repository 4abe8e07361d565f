-- ===== src/Gateway/Stream.antt =====
-- `StreamAdapter` of gateway/adapters/stream.py and its subclasses, which differ in two names.
use Prim.Native.Nat.{◌*◌, ◌+◌, ◌-◌}
use Prim.Native.Char.{code}
use pq_migration_gateway.Prelude.{
  ℕ, String, Bool, true, not, ◌&&◌, [], ◌∷◌, Option, none, some, ◌==◌, if◌then◌else◌, eqb, leb,
}
use pq_migration_gateway.Prelude.Text.{all_codes, is_digit}
use pq_migration_gateway.Result.{Result, ok, err, config_error, attribute_error, require}
use pq_migration_gateway.Json.{Json, str, obj, get_or}
use pq_migration_gateway.Config.Service.{Service}
use pq_migration_gateway.Gateway.Text.{concat, join, underscores}
use pq_migration_gateway.Gateway.Lines.{client_auth_lines, upstream_tls_lines, bind_text}

-- `s.rsplit(":", 1)`, where there is a colon
unfoldable pub split_last_colon : String → Option (String × String)
split_last_colon String.[] = none
split_last_colon (String.◌∷◌ c s) = elim (split_last_colon s) [
  | some (host, port) ↦ some (String.◌∷◌ c host, port)
  | none ↦ if eqb (code c) b':' then some ("", s) else none
]

-- `int(s)` of ASCII digits, from what was read before. `str.isdigit` accepts other digits too, but
-- an upstream address is ASCII.
unfoldable pub decimal : ℕ → String → ℕ
decimal n String.[] = n
decimal n (String.◌∷◌ c s) = decimal (n * 10 + (code c - b'0')) s

abbrev valid_port : String → Bool
valid_port port =
    not (port == "")
    && all_codes is_digit port
    && leb 1 (decimal 0 port)
    && leb (decimal 0 port) 65535

unfoldable pub validate_stream : Service → Result (Unit {0})
unfolding split_last_colon decimal
validate_stream s = elim (split_last_colon s.upstream.address) [
  | none ↦ err (config_error "stream upstream must be HOST:PORT")
  | some (host, port) ↦
      require (not (host == "") && valid_port port) (config_error "invalid stream upstream")
]

-- `app_protocol`: the option, or the protocol of the adapter. `python_str` is `str` of other values.
unfoldable pub app_protocol : (Json → String) → String → Service → Result String
app_protocol python_str default s = elim s.protocol_options [
  | obj options ↦ (elim (get_or "application_protocol" (str default) options) [
    | str text ↦ ok text
    | other ↦ ok (python_str other)
  ])
  | _ ↦ err (attribute_error "get")
]

-- `render_log_format`, for an application protocol
unfoldable pub render_log_format : String → Service → String
render_log_format app s = concat (
    "    log_format pq_stream_"
    ∷ underscores s.id
    ∷ " escape=json\n"
    ∷ "        '{'\n"
    ∷ "        '\"ts\":\"$time_iso8601\",'\n"
    ∷ "        '\"protocol_type\":\"stream\",'\n"
    ∷ "        '\"application_protocol\":\""
    ∷ app
    ∷ "\",'\n"
    ∷ "        '\"service\":\""
    ∷ s.id
    ∷ "\",'\n"
    ∷ "        '\"configured_groups\":\""
    ∷ join ":" s.downstream_tls.groups
    ∷ "\",'\n"
    ∷ "        '\"server_name\":\""
    ∷ s.listen.server_name
    ∷ "\",'\n"
    ∷ "        '\"server_port\":$server_port,'\n"
    ∷ "        '\"remote_addr\":\"$remote_addr\",'\n"
    ∷ "        '\"status\":$status,'\n"
    ∷ "        '\"bytes_sent\":$bytes_sent,'\n"
    ∷ "        '\"bytes_received\":$bytes_received,'\n"
    ∷ "        '\"session_time\":$session_time,'\n"
    ∷ "        '\"upstream_addr\":\"$upstream_addr\",'\n"
    ∷ "        '\"ssl_protocol\":\"$ssl_protocol\",'\n"
    ∷ "        '\"ssl_cipher\":\"$ssl_cipher\",'\n"
    ∷ "        '\"ssl_curve\":\"$ssl_curve\",'\n"
    ∷ "        '\"ssl_server_name\":\"$ssl_server_name\",'\n"
    ∷ "        '\"client_verify\":\"$ssl_client_verify\"'\n"
    ∷ "        '}';\n"
    ∷ [])

-- `render`
unfoldable pub render_stream : Service → String
render_stream s =
    let tls = s.downstream_tls in
    let groups = join ":" tls.groups in
    concat (
      "\n"
      ∷ "    server {\n"
      ∷ "        listen "
      ∷ bind_text s
      ∷ " ssl;\n"
      ∷ "        ssl_protocols TLSv1.3;\n"
      ∷ "        ssl_certificate "
      ∷ tls.certificate
      ∷ ";\n"
      ∷ "        ssl_certificate_key "
      ∷ tls.key_ref
      ∷ ";\n"
      ∷ "        ssl_conf_command Groups "
      ∷ groups
      ∷ ";\n"
      ∷ "        ssl_session_timeout 10m;\n"
      ∷ "        ssl_session_cache shared:PQSTREAM:50m;\n"
      ∷ "        ssl_session_tickets off;\n"
      ∷ "\n"
      ∷ client_auth_lines tls
      ∷ "\n"
      ∷ "\n"
      ∷ "        proxy_connect_timeout "
      ∷ s.timeouts.connect
      ∷ ";\n"
      ∷ "        proxy_timeout "
      ∷ s.timeouts.read
      ∷ ";\n"
      ∷ join "\n" (upstream_tls_lines s true)
      ∷ "\n"
      ∷ "        access_log /var/log/nginx/stream-access.log pq_stream_"
      ∷ underscores s.id
      ∷ ";\n"
      ∷ "        proxy_pass "
      ∷ s.upstream.address
      ∷ ";\n"
      ∷ "    }\n"
      ∷ [])

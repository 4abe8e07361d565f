-- ===== src/Gateway/Http.antt =====
-- `HttpAdapter` of gateway/adapters/http.py.
use Prim.Native.Char.{code}
use pq_migration_gateway.Prelude.{
  ℕ, String, Bool, true, false, not, ◌&&◌, ◌||◌, [], ◌∷◌, Option, none, some, ◌==◌, append,
  if◌then◌else◌, eqb,
}
use pq_migration_gateway.Prelude.Text.{lower, is_lower, is_upper, is_alnum, all_codes}
use pq_migration_gateway.Result.{Result, config_error, ◌>>◌, require}
use pq_migration_gateway.Config.Service.{Service}
use pq_migration_gateway.Gateway.Text.{concat, join, json_string, without_slashes}
use pq_migration_gateway.Gateway.Lines.{client_auth_lines, upstream_tls_lines, bind_text}

-- `s.partition(c)`: what stands before the first `c`, and what stands after it, if there is one.
unfoldable pub partition : (ℕ → Bool) → String → String × Option String
partition stop String.[] = ("", none)
partition stop (String.◌∷◌ c s) =
    let (before, after) = partition stop s in
    if stop (code c) then ("", some s) else (String.◌∷◌ c before, after)

-- `s.rpartition("@")`, where there is an `@`: what stands before the last one.
unfoldable pub before_at : String → Option String
before_at String.[] = none
before_at (String.◌∷◌ c s) = elim (before_at s) [
  | some user ↦ some (String.◌∷◌ c user)
  | none ↦ if eqb (code c) b'@' then some "" else none
]

pub record Url : Type 0 where
  pub scheme : String
  pub netloc : String
  pub path : String

abbrev is_colon : ℕ → Bool
is_colon n = eqb n b':'

abbrev is_slash : ℕ → Bool
is_slash n = eqb n b'/'

unfoldable pub scheme_code : ℕ → Bool
scheme_code n = is_alnum n || eqb n b'+' || eqb n b'-' || eqb n b'.'

-- A letter, then letters, digits and `+-.`
unfoldable pub is_scheme : String → Bool
unfolding scheme_code
is_scheme String.[] = false
is_scheme (String.◌∷◌ c s) = (is_lower (code c) || is_upper (code c)) && all_codes scheme_code s

abbrev path_of : Option String → String
path_of none = ""
path_of (some rest) = append "/" rest

-- The network location, after two slashes, and the path.
unfoldable pub split_netloc : String → String → Url
unfolding partition
split_netloc scheme (String.◌∷◌ a (String.◌∷◌ b s)) =
    if is_slash (code a) && is_slash (code b)
    then (let (host, rest) = partition is_slash s in
        record { scheme = scheme; netloc = host; path = path_of rest })
    else record { scheme = scheme; netloc = ""; path = String.◌∷◌ a (String.◌∷◌ b s) }
split_netloc scheme s = record { scheme = scheme; netloc = ""; path = s }

-- `urlsplit` on an upstream address, which matches SAFE_TOKEN: it has no blank, bracket, query or
-- fragment.
unfoldable pub urlsplit : String → Url
unfolding partition is_scheme split_netloc
urlsplit address =
    let (before, after) = partition is_colon address in
    elim after [
      | some rest ↦
          if is_scheme before then split_netloc (lower before) rest else split_netloc "" address
      | none ↦ split_netloc "" address
    ]

-- `parsed.username or parsed.password`
unfoldable pub has_credentials : String → Bool
unfolding before_at partition
has_credentials netloc = elim (before_at netloc) [
  | none ↦ false
  | some user ↦
      let (name, password) = partition is_colon user in
      not (name == "") || elim password [ none ↦ false | some p ↦ not (p == "") ]
]

-- `(a == b)` on flags
abbrev same : Bool → Bool → Bool
same true b = b
same false b = not b

unfoldable pub validate_http : Service → Result (Unit {0})
unfolding has_credentials
validate_http s = do
  let url = urlsplit s.upstream.address
  require
      ((url.scheme == "http" || url.scheme == "https")
        && not (url.netloc == "")
        && (url.path == "" || url.path == "/"))
      (config_error "HTTP upstream must be an origin URL")
  require (not (has_credentials url.netloc))
      (config_error "HTTP upstream must not contain credentials, query or fragment")
  require (same (url.scheme == "https") s.upstream.enabled)
      (config_error "upstream TLS enabled flag must match URL scheme")

-- `render`
unfoldable pub render_http : Service → String
render_http s =
    let tls = s.downstream_tls in
    let groups = join ":" tls.groups in
    concat (
      "\n"
      ∷ "    server {\n"
      ∷ "        listen "
      ∷ bind_text s
      ∷ " ssl;\n"
      ∷ "        server_name "
      ∷ s.listen.server_name
      ∷ ";\n"
      ∷ "\n"
      ∷ "        set $pq_service_name "
      ∷ json_string s.id
      ∷ ";\n"
      ∷ "        set $pq_configured_groups "
      ∷ json_string groups
      ∷ ";\n"
      ∷ "        set $pq_application_protocol \"http\";\n"
      ∷ "\n"
      ∷ "        ssl_protocols TLSv1.3;\n"
      ∷ "        ssl_certificate "
      ∷ tls.certificate
      ∷ ";\n"
      ∷ "        ssl_certificate_key "
      ∷ tls.key_ref
      ∷ ";\n"
      ∷ "        ssl_conf_command Groups "
      ∷ groups
      ∷ ";\n"
      ∷ "        ssl_session_timeout 10m;\n"
      ∷ "        ssl_session_cache shared:PQHTTP:50m;\n"
      ∷ "        ssl_session_tickets off;\n"
      ∷ "\n"
      ∷ client_auth_lines tls
      ∷ "\n"
      ∷ "\n"
      ∷ join "\n" (upstream_tls_lines s false)
      ∷ "\n"
      ∷ "\n"
      ∷ "        add_header X-PQ-Gateway \"pqc-migration-gateway-v3.7\" always;\n"
      ∷ "        add_header X-PQ-Service "
      ∷ json_string s.id
      ∷ " always;\n"
      ∷ "        add_header X-PQ-TLS-Groups "
      ∷ json_string groups
      ∷ " always;\n"
      ∷ "\n"
      ∷ "        location = /healthz {\n"
      ∷ "            access_log off;\n"
      ∷ "            default_type application/json;\n"
      ∷ "            return 200 '{\"status\":\"ok\",\"service\":\""
      ∷ s.id
      ∷ "\",\"adapter\":\"http\",\"tls_groups\":\""
      ∷ groups
      ∷ "\"}\\n';\n"
      ∷ "        }\n"
      ∷ "\n"
      ∷ "        location / {\n"
      ∷ "            proxy_http_version 1.1;\n"
      ∷ "            proxy_set_header Host $host;\n"
      ∷ "            proxy_set_header X-Request-ID $request_id;\n"
      ∷ "            proxy_set_header X-Forwarded-For $proxy_add_x_forwarded_for;\n"
      ∷ "            proxy_set_header X-Forwarded-Proto https;\n"
      ∷ "            proxy_set_header X-Forwarded-Client-Verify $ssl_client_verify;\n"
      ∷ "            proxy_set_header X-Forwarded-Client-DN $ssl_client_s_dn;\n"
      ∷ "            proxy_set_header X-PQ-TLS-Protocol $ssl_protocol;\n"
      ∷ "            proxy_set_header X-PQ-TLS-Cipher $ssl_cipher;\n"
      ∷ "            proxy_set_header X-PQ-TLS-Group $ssl_curve;\n"
      ∷ "            proxy_set_header X-PQ-Service "
      ∷ json_string s.id
      ∷ ";\n"
      ∷ "            proxy_connect_timeout "
      ∷ s.timeouts.connect
      ∷ ";\n"
      ∷ "            proxy_send_timeout "
      ∷ s.timeouts.send
      ∷ ";\n"
      ∷ "            proxy_read_timeout "
      ∷ s.timeouts.read
      ∷ ";\n"
      ∷ "            proxy_pass "
      ∷ without_slashes s.upstream.address
      ∷ ";\n"
      ∷ "        }\n"
      ∷ "    }\n"
      ∷ [])

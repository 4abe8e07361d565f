-- ===== src/Gateway/Lines.antt =====
-- What the adapters share, gateway/adapters/base.py: `client_auth_lines`, `upstream_tls_lines` and
-- the address that a server listens on.
use pq_migration_gateway.Prelude.{String, Bool, List, [], ◌∷◌, ◌++◌, ◌==◌, append, if◌then◌else◌}
use pq_migration_gateway.Config.Fields.{ClientAuth, Identity}
use pq_migration_gateway.Config.Service.{Service, Downstream, is_off}
use pq_migration_gateway.Prelude.Int.{pos}
use pq_migration_gateway.Json.{Json, num, str, arr, obj, array, dict}
use pq_migration_gateway.Gateway.Text.{concat, port_text}

-- `"optional" if … else "on"`
abbrev verify_word : ClientAuth → String
verify_word ClientAuth.optional = "optional"
verify_word _ = "on"

identity_lines : Identity → List String
identity_lines identity =
    if identity.certificate == ""
    then []
    else concat ("        proxy_ssl_certificate " ∷ identity.certificate ∷ ";" ∷ [])
      ∷ concat ("        proxy_ssl_certificate_key " ∷ identity.reference ∷ ";" ∷ [])
      ∷ []

-- `client_auth_lines`, with its default indent
unfoldable pub client_auth_lines : Downstream → String
client_auth_lines tls = elim tls.client_auth [
  | ClientAuth.off ↦ "        # client certificate authentication disabled"
  | mode ↦ concat (
      "        ssl_client_certificate "
      ∷ tls.client_ca
      ∷ ";\n"
      ∷ "        ssl_verify_client "
      ∷ verify_word mode
      ∷ ";\n"
      ∷ "        ssl_verify_depth 3;"
      ∷ [])
]

-- The lines of an upstream connection that are not the first ones of a stream.
tls_lines : Service → List String
unfolding identity_lines
tls_lines s =
    (if s.upstream.enabled then "        proxy_ssl_session_reuse off;" ∷ [] else [])
    ++ ("        proxy_ssl_protocols TLSv1.2 TLSv1.3;" ∷ [])
    ++ (concat ("        proxy_ssl_server_name " ∷ (if s.sni == "" then "off" else "on") ∷ ";" ∷ [])
        ∷ [])
    ++ (if s.sni == "" then [] else concat ("        proxy_ssl_name " ∷ s.sni ∷ ";" ∷ []) ∷ [])
    ++ (if is_off s.upstream.verify
        then "        proxy_ssl_verify off;" ∷ []
        else "        proxy_ssl_verify on;"
          ∷ concat ("        proxy_ssl_trusted_certificate " ∷ s.upstream.ca ∷ ";" ∷ [])
          ∷ "        proxy_ssl_verify_depth 3;"
          ∷ [])
    ++ identity_lines s.upstream.client_identity

-- `upstream_tls_lines`
unfoldable pub upstream_tls_lines : Service → Bool → List String
unfolding tls_lines
upstream_tls_lines s stream =
    if stream
    then (if s.upstream.enabled
        then "        proxy_ssl on;" ∷ tls_lines s
        else "        proxy_ssl off;" ∷ [])
    else tls_lines s

-- `bind` of the two `render` methods
unfoldable pub bind_text : Service → String
bind_text s =
    if s.listen.address == "0.0.0.0"
    then port_text s.listen.port
    else append s.listen.address (append ":" (port_text s.listen.port))

-- `health_check`, of a stream adapter and of the HTTP adapter
unfoldable pub health_check_stream : Service → Json
health_check_stream s = obj (
    dict (
      ("type", str "tcp")
      ∷ ("host", str s.listen.address)
      ∷ ("port", num (pos s.listen.port))
      ∷ []))

unfoldable pub health_check_http : Service → Json
health_check_http s = obj (
    dict (
      ("type", str "https")
      ∷ ("host", str "127.0.0.1")
      ∷ ("port", num (pos s.listen.port))
      ∷ ("sni", str s.listen.server_name)
      ∷ ("path", str "/healthz")
      ∷ []))

-- `probe`, by the name of the adapter, and `build_tests`
unfoldable pub probe : String → Json → Json
probe name endpoint =
    obj (dict (("adapter", str name) ∷ ("endpoint", endpoint) ∷ ("transport", str "tcp") ∷ []))

unfoldable pub build_tests : Service → List Json
build_tests s =
    obj (
      dict (
        ("name", str "hybrid-handshake")
        ∷ ("groups", arr (array (str "X25519MLKEM768" ∷ [])))
        ∷ []))
    ∷ []

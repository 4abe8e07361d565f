-- ===== src/Config/Legacy.antt =====
-- `_legacy_to_v4` of gateway/model.py: a version 3 document rewritten as a version 4 one.
use Prim.Native.Char.{code}
use pq_migration_gateway.Prelude.{
  String, Bool, true, false, not, ◌||◌, List, [], ◌∷◌, ◌==◌, if◌then◌else◌, leb, eqb,
}
use pq_migration_gateway.Prelude.Int.{pos}
use pq_migration_gateway.Prelude.Text.{lower}
use pq_migration_gateway.Result.{Result, ok, err, type_error, attribute_error, ◌>>=◌}
use pq_migration_gateway.Json.{
  Json, Items, Fields, bool, num, str, arr, obj, elements, array, get, get_or, dict, truthy,
  or_else,
}
use text.Mathlib.Text.{starts_with}

-- `urlsplit(url).scheme == "https"`. `urlsplit` drops leading control characters and blanks, and
-- tabs and line breaks anywhere. It also raises a `ValueError` where a bracket is not closed; such
-- an address is refused by `_string` in any case.
drop_blanks : String → String
drop_blanks String.[] = ""
drop_blanks (String.◌∷◌ c s) =
    let rest = drop_blanks s in if leb (code c) 32 then rest else String.◌∷◌ c s

without_breaks : String → String
without_breaks String.[] = ""
without_breaks (String.◌∷◌ c s) =
    let rest = without_breaks s in
    if eqb (code c) 9 || eqb (code c) 10 || eqb (code c) 13 then rest else String.◌∷◌ c rest

unfoldable pub is_https : String → Bool
unfolding drop_blanks without_breaks lower
is_https url = starts_with (lower (without_breaks (drop_blanks url))) "https:"

-- `v == s` for a text `s`
abbrev is_text : String → Json → Bool
is_text s (str v) = v == s
is_text s _ = false

-- Whether the upstream connection uses TLS: by the URL of an HTTP service, else by its flag.
abbrev upstream_tls : Bool → Json → Json → Bool
upstream_tls true (str address) flag = is_https address
upstream_tls _ _ flag = truthy flag

-- The `dict` for one service, `old`.
unfoldable pub legacy_service : Fields → Fields → Json
unfolding is_https
legacy_service defaults old =
    let is_http = is_text "http" (get_or "protocol" (str "http") old) in
    let address : Json = if is_http then get "upstream_url" old else get "upstream_address" old in
    let strict = is_text "X25519MLKEM768" (get "tls_groups" old) in
    obj (
      dict (
        ("id", get "name" old)
        ∷ (
          "adapter",
          if is_http then str "http" else get_or "application_protocol" (str "generic-stream") old,
        )
        ∷ (
          "listen",
          obj (
              dict (
                ("address", str "0.0.0.0")
                ∷ ("port", get "listen_port" old)
                ∷ ("server_name", get "server_name" old)
                ∷ [])),
        )
        ∷ (
          "downstream_tls",
          obj (
              dict (
                ("mode", str (if strict then "strict" else "compatibility"))
                ∷ ("groups", get_or "tls_groups" (str "X25519MLKEM768:X25519") old)
                ∷ ("client_auth", get_or "client_auth" (str "off") old)
                ∷ ("certificate", get_or "certificate" (get "certificate" defaults) old)
                ∷ (
                  "private_key",
                  obj (
                      dict (
                        ("provider", str "file")
                        ∷ (
                          "reference",
                          get_or "certificate_key" (get "certificate_key" defaults) old,
                        )
                        ∷ [])),
                )
                ∷ ("client_ca", get_or "client_ca" (get "client_ca" defaults) old)
                ∷ [])),
        )
        ∷ (
          "upstream",
          obj (
              dict (
                ("address", address)
                ∷ (
                  "tls",
                  obj (
                      dict (
                        (
                          "enabled",
                          bool (
                              upstream_tls is_http address
                                (get_or "upstream_tls" (bool false) old)),
                        )
                        ∷ ("verify", get_or "upstream_tls_verify" (str "off") old)
                        ∷ ("sni", get_or "upstream_sni" (str "") old)
                        ∷ ("ca", get_or "upstream_ca" (get "upstream_ca" defaults) old)
                        ∷ (
                          "client_identity",
                          obj (
                              dict (
                                ("certificate", get_or "upstream_client_certificate" (str "") old)
                                ∷ (
                                  "private_key",
                                  obj (
                                      dict (
                                        ("provider", str "file")
                                        ∷ ("reference", get_or "upstream_client_key" (str "") old)
                                        ∷ [])),
                                )
                                ∷ [])),
                        )
                        ∷ [])),
                )
                ∷ [])),
        )
        ∷ (
          "timeouts",
          obj (
              dict (
                (
                  "connect_timeout",
                  or_else (get "connect_timeout" old)
                      (or_else (get "connect_timeout" defaults) (str "5s")),
                )
                ∷ (
                  "send_timeout",
                  or_else (get "send_timeout" old)
                      (or_else (get "send_timeout" defaults) (str "60s")),
                )
                ∷ (
                  "read_timeout",
                  or_else (get "read_timeout" old)
                      (or_else (get "read_timeout" defaults) (str "60s")),
                )
                ∷ [])),
        )
        ∷ (
          "rollout",
          obj (
              dict (
                ("policy", str "fixed")
                ∷ ("hybrid_percentage", num (pos 100))
                ∷ ("fallback_allowed", bool (not strict))
                ∷ [])),
        )
        ∷ ("audit", obj (dict (("enabled", bool true) ∷ [])))
        ∷ []))

-- `old.get(…)` on each service; what is no object has no `get`, and `defaults` is asked first only
-- where the loop runs.
unfoldable pub legacy_services : Json → List Json → Result (List Json)
unfolding legacy_service
legacy_services defaults [] = ok []
legacy_services (obj defaults) (obj old ∷ olds) = do
  rest ← legacy_services (obj defaults) olds
  ok (legacy_service defaults old ∷ rest)
legacy_services _ (_ ∷ _) = err (attribute_error "get")

-- `for old in config.get("services", [])`: a text or an object is iterated by its parts, which are
-- texts.
unfoldable pub iterate : Json → Result (List Json)
iterate (arr items) = ok (elements items)
iterate (str s) = if s == "" then ok [] else ok (str s ∷ [])
iterate (obj Fields.end) = ok []
iterate (obj (Fields.field k v fs)) = ok (str k ∷ [])
iterate _ = err (type_error "not iterable")

unfoldable pub legacy_to_v4 : Fields → Result Fields
unfolding iterate legacy_services
legacy_to_v4 config = do
  let defaults = get_or "defaults" (obj Fields.end) config
  olds ← iterate (get_or "services" (arr Items.nil) config)
  services ← legacy_services defaults olds
  ok (
      dict (
        ("schema_version", str "4.0")
        ∷ ("defaults", defaults)
        ∷ ("services", arr (array services))
        ∷ []))

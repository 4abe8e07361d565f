-- ===== src/Migration/Service.antt =====
-- `_compatibility_service` and the constants of manager/scan_orchestrator.py. A `dict` method that is
-- called on a value of another kind raises an `AttributeError`.
use pq_migration_gateway.Prelude.{
  String, Bool, true, false, List, [], ◌∷◌, Option, none, some, map, ◌==◌, if◌then◌else◌, is_some,
  not,
}
use pq_migration_gateway.Prelude.Int.{pos}
use pq_migration_gateway.Result.{
  Result, ok, err, value_error, attribute_error, ◌>>=◌, ◌>>◌, require,
}
use pq_migration_gateway.Json.{
  Json, Fields, bool, num, str, arr, obj, array, find, get_or, get, insert, update, dict, truthy,
}
use pq_migration_gateway.Store.Inventory.{text}

-- DEFAULTS
abbrev pub migration_defaults : Json
migration_defaults = obj (
    dict (
      ("certificate", str "/etc/pq-gateway/certs/server.crt")
      ∷ ("certificate_key", str "/etc/pq-gateway/certs/server.key")
      ∷ ("client_ca", str "/etc/pq-gateway/certs/ca.crt")
      ∷ ("upstream_ca", str "/etc/pq-gateway/certs/upstream/ca.crt")
      ∷ ("dns_resolver", str "127.0.0.11")
      ∷ ("connect_timeout", str "5s")
      ∷ ("send_timeout", str "60s")
      ∷ ("read_timeout", str "60s")
      ∷ []))

abbrev pub group_list : List String → Json
group_list names = arr (array (map (λ g. str g) names))

abbrev pub tls_mode : String → List String → Fields
tls_mode mode names = dict (("mode", str mode) ∷ ("groups", group_list names) ∷ [])

abbrev pub hybrid_groups : List String
hybrid_groups = "X25519MLKEM768" ∷ "X25519" ∷ []

abbrev pub strict_groups : List String
strict_groups = "X25519MLKEM768" ∷ []

abbrev pub rollout : Bool → Json
rollout fallback = obj (
    dict (
      ("policy", str "fixed")
      ∷ ("hybrid_percentage", num (pos 100))
      ∷ ("fallback_allowed", bool fallback)
      ∷ []))

-- `d.setdefault(key, value)`, as the new `d`
unfoldable pub set_default : String → Json → Fields → Fields
unfolding find insert
set_default key value fs = elim (find key fs) [ some _ ↦ fs | none ↦ insert key value fs ]

abbrev pub section_of : Option Json → Json
section_of none = obj Fields.end
section_of (some v) = v

-- A change of the `dict` that `spec.setdefault(key, {})` gives.
abbrev pub as_section : Json → Result Fields
as_section (obj section) = ok section
as_section _ = err (attribute_error "dict")

unfoldable pub change_section : String → (Fields → Fields) → Fields → Result Fields
unfolding find insert
change_section key change fs = do
  section ← as_section (section_of (find key fs))
  ok (insert key (obj (change section)) fs)

abbrev file_key : String → Json
file_key reference = obj (dict (("provider", str "file") ∷ ("reference", str reference) ∷ []))

abbrev pub downstream_defaults : Fields → Fields
downstream_defaults section = set_default "client_ca" (str "/etc/pq-gateway/certs/ca.crt") (
    set_default "private_key" (file_key "/etc/pq-gateway/certs/server.key") (
      set_default "certificate" (str "/etc/pq-gateway/certs/server.crt") (
        set_default "client_auth" (str "off")
          (update section (tls_mode "compatibility" hybrid_groups)))))

abbrev pub timeouts : Json
timeouts = obj (dict (("connect", str "5s") ∷ ("send", str "60s") ∷ ("read", str "60s") ∷ []))

abbrev pub spec_defaults : Fields → Fields
spec_defaults spec = set_default "protocol_options" (obj Fields.end) (
    set_default "audit" (obj (dict (("enabled", bool true) ∷ [])))
      (insert "rollout" (rollout true) (set_default "timeouts" timeouts spec)))

abbrev verify_default : Fields → Json
verify_default section = if truthy (get "enabled" section) then str "on" else str "off"

abbrev no_identity : Json
no_identity = obj (dict (("certificate", str "") ∷ ("private_key", file_key "") ∷ []))

abbrev upstream_verify : Fields → Fields
upstream_verify section = set_default "verify" (verify_default section) section

abbrev pub upstream_defaults : Fields → Fields
upstream_defaults section = set_default "client_identity" no_identity (
    set_default "ca" (str "/etc/pq-gateway/certs/upstream/ca.crt")
      (set_default "sni" (str "") (upstream_verify (set_default "enabled" (bool false) section))))

abbrev has : String → Fields → Bool
has key fs = is_some (find key fs)

-- The guards of `_compatibility_service`.
unfoldable pub check_service : (Json → String) → Fields → Result (Unit {0})
unfolding find get_or
check_service python_str spec = do
  require (not (text python_str (get_or "id" (str "") spec) == ""))
      (value_error "migration service.id is required")
  require (has "adapter" spec) (value_error "adapter")
  require (has "listen" spec) (value_error "listen")
  require (has "upstream" spec) (value_error "upstream")

unfoldable pub compatibility_service : (Json → String) → Fields → Result Fields
unfolding check_service change_section set_default get
compatibility_service python_str service = do
  checked ← check_service python_str service
  downstream ← change_section "downstream_tls" downstream_defaults service
  let spec = spec_defaults downstream
  upstream ← as_section (get "upstream" spec)
  upstream_tls ← change_section "tls" upstream_defaults upstream
  ok (insert "upstream" (obj upstream_tls) spec)

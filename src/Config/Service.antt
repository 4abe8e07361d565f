-- ===== src/Config/Service.antt =====
-- One service of a version 4 document, normalised field by field in the order of the loop body of
-- `normalize_config` in gateway/model.py, and the `dict` that the loop appends.
use pq_migration_gateway.Prelude.{
  ℕ, String, append, Bool, true, false, not, ◌||◌, List, [], ◌∷◌, map, Option, none, some, ◌==◌,
  if◌then◌else◌, leb, mem,
}
use pq_migration_gateway.Prelude.Int.{pos}
use pq_migration_gateway.Result.{Result, ok, err, config_error, ◌>>=◌, ◌>>◌, require}
use pq_migration_gateway.Json.{Json, Fields, bool, num, str, arr, obj, array, get, get_or, dict}
use pq_migration_gateway.Config.Fields.{
  Mode, ClientAuth, Verify, Provider, safe_token, string, port, timeout_string, boolean, one_of,
  mode_name, client_auth_of, client_auth_name, verify_of, verify_name, provider_name, groups,
  is_strict, is_classical, nonempty, Identity, identity, key_fields, as_object,
}

pub record Listen : Type 0 where
  pub address : String
  pub port : ℕ
  pub server_name : String

pub record Downstream : Type 0 where
  pub mode : Mode
  pub groups : List String
  pub client_auth : ClientAuth
  pub certificate : String
  pub key_ref : String
  pub client_ca : String

pub record Upstream : Type 0 where
  pub address : String
  pub enabled : Bool
  pub verify : Verify
  pub ca : String
  pub client_identity : Identity

pub record Timeouts : Type 0 where
  pub connect : String
  pub send : String
  pub read : String

pub data Policy : Type 0 where
  fixed percentage client_group source_cidr sni : Policy

pub record Rollout : Type 0 where
  pub policy : Policy
  pub hybrid_percentage : ℕ
  pub fallback_allowed : Bool

pub record Service : Type 0 where
  pub id : String
  pub adapter : String
  pub listen : Listen
  pub downstream_tls : Downstream
  pub upstream : Upstream
  pub sni : String
  pub timeouts : Timeouts
  pub rollout : Rollout
  pub audit_enabled : Bool
  pub protocol_options : Json

unfoldable pub policy_of : String → Option Policy
policy_of s =
    if s == "fixed"
    then some Policy.fixed
    else if s == "percentage"
    then some Policy.percentage
    else if s == "client-group"
    then some Policy.client_group
    else if s == "source-cidr"
    then some Policy.source_cidr
    else if s == "sni"
    then some Policy.sni
    else none

unfoldable pub policy_name : Policy → String
policy_name Policy.fixed = "fixed"
policy_name Policy.percentage = "percentage"
policy_name Policy.client_group = "client-group"
policy_name Policy.source_cidr = "source-cidr"
policy_name Policy.sni = "sni"

-- `f"{service_id}.local"`
abbrev pub local_name : String → String
local_name sid = append sid ".local"

-- The `listen` section. The test for a duplicate listener follows it.
unfoldable pub listen_of : String → Fields → Result Listen
unfolding as_object
listen_of sid raw = do
  listen ← as_object (get_or "listen" (obj Fields.end) raw) "listen"
  address ← string safe_token (get_or "address" (str "0.0.0.0") listen) "listen.address"
  p ← port (get "port" listen) "listen.port"
  name ← string safe_token (get_or "server_name" (str (local_name sid)) listen) "listen.server_name"
  ok (record { address = address; port = p; server_name = name })

abbrev pub default_key : Fields → Json
default_key defaults =
    obj (dict (("provider", str "file") ∷ ("reference", get "certificate_key" defaults) ∷ []))

-- `private_key.get("provider", "file") != "file"`
abbrev pub is_file : Json → Bool
is_file (str s) = s == "file"
is_file _ = false

-- The `downstream_tls` section.
unfoldable pub downstream_fields : Fields → Fields → Result Downstream
downstream_fields defaults tls = do
  (mode, gs) ← groups tls
  auth ← one_of client_auth_of (get_or "client_auth" (str "off") tls) "client_auth"
  certificate ←
      string safe_token (get_or "certificate" (get "certificate" defaults) tls) "certificate"
  key ← key_fields (get_or "private_key" (default_key defaults) tls) "downstream_tls.private_key"
  require (is_file (get_or "provider" (str "file") key))
      (config_error "data plane renders file private-key references only")
  key_ref ← string safe_token (get "reference" key) "downstream_tls.private_key.reference"
  client_ca ← string safe_token (get_or "client_ca" (get "client_ca" defaults) tls) "client_ca"
  ok (record {
    mode = mode;
    groups = gs;
    client_auth = auth;
    certificate = certificate;
    key_ref = key_ref;
    client_ca = client_ca;
  })

unfoldable pub downstream_of : Fields → Fields → Result Downstream
unfolding as_object
downstream_of defaults raw = do
  tls ← as_object (get_or "downstream_tls" (obj Fields.end) raw) "downstream_tls"
  downstream_fields defaults tls

abbrev pub is_off : Verify → Bool
is_off Verify.off = true
is_off _ = false

abbrev pub is_file_provider : Provider → Bool
is_file_provider Provider.file = true
is_file_provider _ = false

-- The `upstream` section. Its `sni` is validated later, when the result is built, and is passed on.
unfoldable pub upstream_of : Fields → Fields → Result (Upstream × Json)
unfolding as_object boolean
upstream_of defaults raw = do
  upstream ← as_object (get_or "upstream" (obj Fields.end) raw) "upstream"
  address ← string safe_token (get "address" upstream) "upstream.address"
  tls ← as_object (get_or "tls" (obj Fields.end) upstream) "upstream.tls"
  enabled ← boolean (get_or "enabled" (bool false) tls) "upstream.tls.enabled"
  verify ← one_of verify_of (get_or "verify" (str "off") tls) "upstream TLS verification"
  require (enabled || is_off verify) (config_error "upstream verification requires TLS")
  ca ← string safe_token (get_or "ca" (get "upstream_ca" defaults) tls) "upstream.tls.ca"
  client ← identity (get "client_identity" tls)
  require (is_file_provider client.provider || not (nonempty client.certificate))
      (config_error "data plane renders file upstream identity references only")
  ok (
    record {
      address = address;
      enabled = enabled;
      verify = verify;
      ca = ca;
      client_identity = client;
    },
    get "sni" tls,
  )

-- `timeouts.get(key, timeouts.get(key + "_timeout", defaults.get(key + "_timeout", fallback)))`
abbrev pub timeout_value : String → String → String → Fields → Fields → Json
timeout_value key long fallback defaults timeouts =
    get_or key (get_or long (get_or long (str fallback) defaults) timeouts) timeouts

-- The `timeouts` section.
unfoldable pub timeouts_of : Fields → Fields → Result Timeouts
unfolding as_object
timeouts_of defaults raw = do
  timeouts ← as_object (get_or "timeouts" (obj Fields.end) raw) "timeouts"
  connect ←
      timeout_string (timeout_value "connect" "connect_timeout" "5s" defaults timeouts)
        "timeouts.connect"
  send ←
      timeout_string (timeout_value "send" "send_timeout" "60s" defaults timeouts) "timeouts.send"
  read ←
      timeout_string (timeout_value "read" "read_timeout" "60s" defaults timeouts) "timeouts.read"
  ok (record { connect = connect; send = send; read = read })

-- `isinstance(p, int)`, no `bool`, and `0 <= p <= 100`
unfoldable pub percent : Json → Result ℕ
percent (num (pos n)) = if leb n 100 then ok n else err (config_error "hybrid_percentage")
percent _ = err (config_error "hybrid_percentage")

-- The `rollout` section, which depends on the mode and the groups.
unfoldable pub rollout_of : Mode → List String → Fields → Result Rollout
unfolding as_object boolean
rollout_of mode gs raw = do
  rollout ← as_object (get_or "rollout" (obj Fields.end) raw) "rollout"
  policy ← one_of policy_of (get_or "policy" (str "fixed") rollout) "rollout policy"
  share ←
      percent
        (get_or "hybrid_percentage" (num (pos (if is_classical mode then 0 else 100))) rollout)
  fallback ←
      boolean (get_or "fallback_allowed" (bool (not (is_strict mode))) rollout)
        "rollout.fallback_allowed"
  require (fallback || not (mem "X25519" gs))
      (config_error "fallback_allowed=false conflicts with X25519 group")
  ok (record { policy = policy; hybrid_percentage = share; fallback_allowed = fallback })

-- `raw.get("audit", {})`: only an object's `enabled` is read.
unfoldable pub audit_of : Json → Result Bool
unfolding boolean
audit_of (obj audit) = boolean (get_or "enabled" (bool true) audit) "audit.enabled"
audit_of _ = ok true

-- The `dict` that the loop appends to `normalized`.
unfoldable pub identity_dict : Identity → Json
identity_dict c = obj (
    dict (
      ("certificate", str c.certificate)
      ∷ (
        "private_key",
        obj (
            dict
              (("provider", str (provider_name c.provider)) ∷ ("reference", str c.reference) ∷ [])),
      )
      ∷ []))

unfoldable pub listen_dict : Listen → Json
listen_dict l = obj (
    dict (
      ("address", str l.address)
      ∷ ("port", num (pos l.port))
      ∷ ("server_name", str l.server_name)
      ∷ []))

unfoldable pub downstream_dict : Downstream → Json
downstream_dict d = obj (
    dict (
      ("mode", str (mode_name d.mode))
      ∷ ("groups", arr (array (map str d.groups)))
      ∷ ("client_auth", str (client_auth_name d.client_auth))
      ∷ ("certificate", str d.certificate)
      ∷ ("private_key", obj (dict (("provider", str "file") ∷ ("reference", str d.key_ref) ∷ [])))
      ∷ ("client_ca", str d.client_ca)
      ∷ []))

unfoldable pub upstream_dict : Upstream → String → Json
unfolding identity_dict
upstream_dict u server = obj (
    dict (
      ("address", str u.address)
      ∷ (
        "tls",
        obj (
            dict (
              ("enabled", bool u.enabled)
              ∷ ("verify", str (verify_name u.verify))
              ∷ ("sni", str server)
              ∷ ("ca", str u.ca)
              ∷ ("client_identity", identity_dict u.client_identity)
              ∷ [])),
      )
      ∷ []))

unfoldable pub timeouts_dict : Timeouts → Json
timeouts_dict t =
    obj (dict (("connect", str t.connect) ∷ ("send", str t.send) ∷ ("read", str t.read) ∷ []))

unfoldable pub rollout_dict : Rollout → Json
rollout_dict r = obj (
    dict (
      ("policy", str (policy_name r.policy))
      ∷ ("hybrid_percentage", num (pos r.hybrid_percentage))
      ∷ ("fallback_allowed", bool r.fallback_allowed)
      ∷ []))

unfoldable pub service_fields : Service → Fields
service_fields s = dict (
    ("id", str s.id)
    ∷ ("adapter", str s.adapter)
    ∷ ("listen", listen_dict s.listen)
    ∷ ("downstream_tls", downstream_dict s.downstream_tls)
    ∷ ("upstream", upstream_dict s.upstream s.sni)
    ∷ ("timeouts", timeouts_dict s.timeouts)
    ∷ ("rollout", rollout_dict s.rollout)
    ∷ ("audit", obj (dict (("enabled", bool s.audit_enabled) ∷ [])))
    ∷ ("protocol_options", s.protocol_options)
    ∷ [])

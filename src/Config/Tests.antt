-- ===== src/Config/Tests.antt =====
-- Documents for gateway/model.py, and its theorems at them.
use pq_migration_gateway.Prelude.{◌≡◌, refl, true, false, [], ◌∷◌, All}
use pq_migration_gateway.Prelude.Int.{pos}
use pq_migration_gateway.Prelude.Text.{lower, split_colon}
use pq_migration_gateway.Result.{ok}
use pq_migration_gateway.Json.{Json, Fields, str, obj, num, arr, array, dict, get, insert}
use pq_migration_gateway.Config.Fields.{
  Mode, ClientAuth, Verify, safe_name, timeout, no_identity, nonempty, groups, safe_token, string,
  optional_string, port, timeout_string, one_of, mode_of, client_auth_of, verify_of, provider_of,
  raw_groups, key_fields, identity, boolean, as_object,
}
use pq_migration_gateway.Config.Service.{
  Policy, Service, policy_of, listen_of, downstream_of, downstream_fields, upstream_of, timeouts_of,
  rollout_of, percent, audit_of,
}
use pq_migration_gateway.Config.Normalize.{
  Canonical, normalize_config, normalize_v4, normalize_raw, services_of, service_list, is_version3,
  is_schema4, document,
}
use pq_migration_gateway.Config.Legacy.{legacy_to_v4}
use pq_migration_gateway.Config.Sound.{IsCanonical, normalize_config-IsCanonical}
use pq_migration_gateway.Config.Idempotent.{HasSafeGroups, normalize_config-document}
use pq_migration_gateway.Config.Groups.{groups-unchecked}

abbrev pub defaults : Fields
defaults = dict (
    ("dns_resolver", str "127.0.0.11")
    ∷ ("certificate", str "/certs/server.pem")
    ∷ ("certificate_key", str "/certs/server.key")
    ∷ ("client_ca", str "/certs/ca.pem")
    ∷ ("upstream_ca", str "/certs/ca.pem")
    ∷ [])

-- A version 3 document with one HTTP service.
abbrev pub old_document : Json
old_document = obj (
    dict (
      ("version", num (pos 3))
      ∷ ("defaults", obj defaults)
      ∷ (
        "services",
        arr (
            array (
              obj (
                dict (
                  ("name", str "bank")
                  ∷ ("listen_port", num (pos 8443))
                  ∷ ("server_name", str "bank.local")
                  ∷ ("upstream_url", str "http://bank:8080")
                  ∷ []))
              ∷ [])),
      )
      ∷ []))

abbrev pub bank : Service
bank = record {
  id = "bank";
  adapter = "http";
  listen = record { address = "0.0.0.0"; port = 8443; server_name = "bank.local" };
  downstream_tls = record {
    mode = Mode.compatibility;
    groups = "X25519MLKEM768" ∷ "X25519" ∷ [];
    client_auth = ClientAuth.off;
    certificate = "/certs/server.pem";
    key_ref = "/certs/server.key";
    client_ca = "/certs/ca.pem";
  };
  upstream = record {
    address = "http://bank:8080";
    enabled = false;
    verify = Verify.off;
    ca = "/certs/ca.pem";
    client_identity = no_identity;
  };
  sni = "";
  timeouts = record { connect = "5s"; send = "60s"; read = "60s" };
  rollout = record { policy = Policy.fixed; hybrid_percentage = 100; fallback_allowed = true };
  audit_enabled = true;
  protocol_options = obj Fields.end;
}

abbrev pub bank_config : Canonical
bank_config = record { defaults = defaults; services = bank ∷ [] }

pub old_document-accepted : normalize_config old_document ≡ ok bank_config
unfolding normalize_config normalize_v4 normalize_raw services_of service_list is_version3
    is_schema4 legacy_to_v4 listen_of downstream_of downstream_fields upstream_of timeouts_of
    rollout_of percent audit_of groups safe_token string optional_string port timeout_string one_of
    mode_of client_auth_of verify_of provider_of raw_groups key_fields identity boolean as_object
    policy_of get insert lower split_colon safe_name timeout
old_document-accepted = refl

normalize_config-IsCanonical_example : IsCanonical bank_config
normalize_config-IsCanonical_example =
    normalize_config-IsCanonical old_document bank_config old_document-accepted

bank-HasSafeGroups : All HasSafeGroups (bank ∷ [])
unfolding safe_token
bank-HasSafeGroups = ((refl, (refl, tt)), tt)

normalize_config-document_example : normalize_config (document bank_config) ≡ ok bank_config
normalize_config-document_example =
    normalize_config-document old_document bank_config old_document-accepted bank-HasSafeGroups

groups-unchecked_example :
    groups (dict (("mode", str "custom") ∷ ("groups", str "X; ssl_protocols TLSv1") ∷ []))
    ≡ ok (Mode.custom, "X; ssl_protocols TLSv1" ∷ [])
groups-unchecked_example = groups-unchecked "X; ssl_protocols TLSv1" (unfold nonempty in refl) refl

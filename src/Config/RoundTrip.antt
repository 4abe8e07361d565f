-- ===== src/Config/RoundTrip.antt =====
-- Normalising what `normalize_config` of gateway/model.py returned gives it back.
use pq_migration_gateway.Prelude.{
  ℕ, ◌≤◌, ◌≡◌, refl, ap, sym, String, Bool, true, false, inl, inr, List, [], ◌∷◌, map, some, arith,
  eq_iff, All, ◌==◌, Bool-cases, &&-eq-true,
}
use pq_migration_gateway.Prelude.Int.{pos}
use pq_migration_gateway.Prelude.Text.{lower}
use pq_migration_gateway.Result.{ok}
use pq_migration_gateway.Json.{Fields, str, num, arr, array, elements-array, find, get}
use pq_migration_gateway.Config.Fields.{
  Mode, ClientAuth, Verify, Provider, safe_name, safe_token, timeout, string, optional_string,
  nonempty, port, timeout_string, one_of, mode_of, mode_name, client_auth_of, client_auth_name,
  verify_of, verify_name, provider_of, provider_name, strings, groups, raw_groups, Identity,
  identity, key_fields, boolean,
}
use pq_migration_gateway.Config.Service.{
  Policy, policy_of, policy_name, Listen, Downstream, Upstream, Timeouts, Rollout, listen_of,
  downstream_fields, downstream_of, upstream_of, timeouts_of, rollout_of, percent, listen_dict,
  downstream_dict, upstream_dict, timeouts_dict, rollout_dict, identity_dict,
}
use pq_migration_gateway.Config.Canonical.{
  IsListen, IsDownstream, IsIdentity, IsUpstream, IsTimeouts, IsRollout,
}

-- A filled text that matches a pattern is returned as it is.
string-eq-ok :
    (pattern : String → Bool) (s field : String)
    → nonempty s ≡ true
    → pattern s ≡ true
    → string pattern (str s) field ≡ ok s
unfolding string
string-eq-ok pattern s field filled fits = ground arith

safe_token-nonempty : (s : String) → safe_token s ≡ true → nonempty s ≡ true
unfolding safe_token
safe_token-nonempty s h = (&&-eq-true (nonempty s) _ h).0

safe_name-nonempty : (s : String) → safe_name s ≡ true → nonempty s ≡ true
unfolding safe_name
safe_name-nonempty s h = (&&-eq-true (nonempty s) _ h).0

pub token-eq-ok : (s field : String) → safe_token s ≡ true → string safe_token (str s) field ≡ ok s
token-eq-ok s field h = string-eq-ok safe_token s field (safe_token-nonempty s h) h

pub name-eq-ok : (s field : String) → safe_name s ≡ true → string safe_name (str s) field ≡ ok s
name-eq-ok s field h = string-eq-ok safe_name s field (safe_name-nonempty s h) h

timeout-nonempty : (s : String) → timeout s ≡ true → nonempty s ≡ true
unfolding timeout nonempty
timeout-nonempty String.[] h = cc
timeout-nonempty (String.◌∷◌ c s) h = refl

timeout-eq-ok : (s field : String) → timeout s ≡ true → timeout_string (str s) field ≡ ok s
unfolding timeout_string
timeout-eq-ok s field h = string-eq-ok timeout s field (timeout-nonempty s h) h

ne_blank-nonempty : (s : String) → (s == "") ≡ false → nonempty s ≡ true
unfolding nonempty
ne_blank-nonempty String.[] h = cc
ne_blank-nonempty (String.◌∷◌ c s) h = refl

pub optional-eq-ok :
    (s field : String)
    → (nonempty s ≡ true → safe_token s ≡ true)
    → optional_string (str s) field ≡ ok s
unfolding optional_string
optional-eq-ok s field h = elim (Bool-cases (s == "")) [
  | inl blank ↦ rw blank (ap ok (sym ((eq_iff s "").0 blank)))
  | inr filled ↦ rw filled (token-eq-ok s field (h (ne_blank-nonempty s filled)))
]

-- The name of a choice is read back as that choice.
mode-eq-ok : (m : Mode) (field : String) → one_of mode_of (str (mode_name m)) field ≡ ok m
unfolding one_of mode_of mode_name lower
mode-eq-ok Mode.compatibility field = refl
mode-eq-ok _ field = refl

client_auth-eq-ok :
    (a : ClientAuth) (field : String)
    → one_of client_auth_of (str (client_auth_name a)) field ≡ ok a
unfolding one_of client_auth_of client_auth_name lower
client_auth-eq-ok ClientAuth.off field = refl
client_auth-eq-ok _ field = refl

verify-eq-ok : (v : Verify) (field : String) → one_of verify_of (str (verify_name v)) field ≡ ok v
unfolding one_of verify_of verify_name lower
verify-eq-ok Verify.off field = refl
verify-eq-ok _ field = refl

provider-eq-ok :
    (p : Provider) (field : String) → one_of provider_of (str (provider_name p)) field ≡ ok p
unfolding one_of provider_of provider_name lower
provider-eq-ok Provider.file field = refl
provider-eq-ok _ field = refl

policy-eq-ok : (p : Policy) (field : String) → one_of policy_of (str (policy_name p)) field ≡ ok p
unfolding one_of policy_of policy_name lower
policy-eq-ok Policy.fixed field = refl
policy-eq-ok _ field = refl

strings-eq-ok :
    (gs : List String) (field : String)
    → All (λ g. safe_token g ≡ true) gs
    → strings (map str gs) field ≡ ok gs
unfolding strings
strings-eq-ok [] field h = refl
strings-eq-ok (g ∷ gs) field (safe, rest) =
    rw (token-eq-ok g field safe, strings-eq-ok gs field rest)

port-eq-ok : (n : ℕ) (field : String) → 1 ≤ n → n ≤ 65535 → port (num (pos n)) field ≡ ok n
unfolding port
port-eq-ok n field low high = ground arith

percent-eq-ok : (n : ℕ) → n ≤ 100 → percent (num (pos n)) ≡ ok n
unfolding percent
percent-eq-ok n high = ground arith

identity-eq-ok : (c : Identity) → IsIdentity c → identity (identity_dict c) ≡ ok c
unfolding identity identity_dict get key_fields
identity-eq-ok c h =
    rw
      (
        optional-eq-ok c.certificate "certificate" h.certificate_safe,
        provider-eq-ok c.provider "private-key provider",
        optional-eq-ok c.reference "private_key.reference" h.reference_safe,
      )
      (ground arith)

raw_groups-eq-ok :
    (mode : Mode) (gs : List String)
    → All (λ g. safe_token g ≡ true) gs
    → raw_groups mode (arr (array (map str gs))) ≡ ok gs
unfolding raw_groups
raw_groups-eq-ok mode gs safe = rw elements-array (strings-eq-ok gs "downstream_tls.groups" safe)

-- Each section of a service, read from a document in which it stands as it was printed.
module _ (raw : Fields) where
  pub listen-eq-ok :
      (sid : String) (l : Listen)
      → find "listen" raw ≡ some (listen_dict l)
      → IsListen l
      → listen_of sid raw ≡ ok l
  unfolding listen_of listen_dict get
  listen-eq-ok sid l e h = rw (
    e,
    token-eq-ok l.address "listen.address" h.address_safe,
    port-eq-ok l.port "listen.port" h.port_low h.port_high,
    token-eq-ok l.server_name "listen.server_name" h.name_safe,
  )

  pub timeouts-eq-ok :
      (defaults : Fields) (t : Timeouts)
      → find "timeouts" raw ≡ some (timeouts_dict t)
      → IsTimeouts t
      → timeouts_of defaults raw ≡ ok t
  unfolding timeouts_of timeouts_dict get
  timeouts-eq-ok defaults t e h = rw (
    e,
    timeout-eq-ok t.connect "timeouts.connect" h.connect_ok,
    timeout-eq-ok t.send "timeouts.send" h.send_ok,
    timeout-eq-ok t.read "timeouts.read" h.read_ok,
  )

  pub downstream-eq-ok :
      (defaults : Fields) (d : Downstream)
      → find "downstream_tls" raw ≡ some (downstream_dict d)
      → IsDownstream d
      → All (λ g. safe_token g ≡ true) d.groups
      → downstream_of defaults raw ≡ ok d
  unfolding downstream_of downstream_fields downstream_dict get groups key_fields
  downstream-eq-ok defaults d e h safe =
      rw
        (
          e,
          mode-eq-ok d.mode "downstream_tls.mode",
          raw_groups-eq-ok d.mode d.groups safe,
          client_auth-eq-ok d.client_auth "client_auth",
          token-eq-ok d.certificate "certificate" h.certificate_safe,
          token-eq-ok d.key_ref "downstream_tls.private_key.reference" h.key_safe,
          token-eq-ok d.client_ca "client_ca" h.ca_safe,
        )
        (ground arith)

  pub upstream-eq-ok :
      (defaults : Fields) (u : Upstream) (server : String)
      → find "upstream" raw ≡ some (upstream_dict u server)
      → IsUpstream u
      → upstream_of defaults raw ≡ ok (u, str server)
  unfolding upstream_of upstream_dict get boolean
  upstream-eq-ok defaults u server e h =
      rw
        (
          e,
          token-eq-ok u.address "upstream.address" h.address_safe,
          verify-eq-ok u.verify "upstream TLS verification",
          token-eq-ok u.ca "upstream.tls.ca" h.ca_safe,
          identity-eq-ok u.client_identity h.identity_rules,
        )
        (ground arith)

  pub rollout-eq-ok :
      (mode : Mode) (gs : List String) (r : Rollout)
      → find "rollout" raw ≡ some (rollout_dict r)
      → IsRollout gs r
      → rollout_of mode gs raw ≡ ok r
  unfolding rollout_of rollout_dict get boolean
  rollout-eq-ok mode gs r e h =
      rw
        (
          e,
          policy-eq-ok r.policy "rollout policy",
          percent-eq-ok r.hybrid_percentage h.share_bounded,
        )
        (ground arith)

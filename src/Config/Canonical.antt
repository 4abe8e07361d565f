-- ===== src/Config/Canonical.antt =====
-- What holds of every configuration that `normalize_config` of gateway/model.py returns.
use pq_migration_gateway.Prelude.{
  ◌≤◌, ◌≡◌, refl, String, Bool, true, false, inl, inr, List, arith, mem,
}
use pq_migration_gateway.Result.{ok, >>=-eq-ok, Result-cases}
use pq_migration_gateway.Json.{Json, Fields, obj, get_or}
use pq_migration_gateway.Config.Fields.{
  Mode, safe_token, timeout, groups, is_strict, nonempty, distinct, port, timeout_string, is_empty,
  Identity, identity, as_object, string, optional_string,
}
use pq_migration_gateway.Config.Service.{
  Listen, Downstream, Upstream, Timeouts, Rollout, listen_of, downstream_fields, downstream_of,
  upstream_of, timeouts_of, rollout_of, percent, is_off, is_file_provider,
}

-- A text that `_string` returns matches the pattern.
pub string-matches :
    (pattern : String → Bool) (raw : Json) (field s : String)
    → string pattern raw field ≡ ok s
    → pattern s ≡ true
unfolding string
string-matches pattern raw field s h = ground arith

nonempty-empty : nonempty "" ≡ false
unfolding nonempty
nonempty-empty = refl

pub optional_string-safe :
    (raw : Json) (field s : String)
    → optional_string raw field ≡ ok s
    → nonempty s ≡ true
    → safe_token s ≡ true
unfolding optional_string string
optional_string-safe raw field s h filled = ground (arith, nonempty-empty)

pub record IsListen (l : Listen) : Type 0 where
  pub address_safe : safe_token l.address ≡ true
  pub name_safe : safe_token l.server_name ≡ true
  pub port_low : 1 ≤ l.port
  pub port_high : l.port ≤ 65535

pub listen_of-IsListen :
    (sid : String) (raw : Fields) (l : Listen) → listen_of sid raw ≡ ok l → IsListen l
unfolding listen_of string port
listen_of-IsListen sid raw l h = ground arith

-- The rules on a group set that do not depend on how it was written.
pub record IsGroups (mode : Mode) (gs : List String) : Type 0 where
  pub filled : is_empty gs ≡ false
  pub no_repeats : distinct gs ≡ true
  pub strict_pure : is_strict mode ≡ true → mem "X25519" gs ≡ false

pub groups-IsGroups : (tls : Fields) (r : Mode × List String) → groups tls ≡ ok r → IsGroups r.0 r.1
unfolding groups
groups-IsGroups tls r h = ground arith

pub record IsDownstream (d : Downstream) : Type 0 where
  pub group_rules : IsGroups d.mode d.groups
  pub certificate_safe : safe_token d.certificate ≡ true
  pub key_safe : safe_token d.key_ref ≡ true
  pub ca_safe : safe_token d.client_ca ≡ true

downstream_fields-IsDownstream :
    (defaults tls : Fields) (d : Downstream)
    → downstream_fields defaults tls ≡ ok d
    → IsDownstream d
unfolding downstream_fields
downstream_fields-IsDownstream defaults tls d h = elim (Result-cases (groups tls)) [
  | inl (r, e) ↦ grind (arith, e, groups-IsGroups tls r e, string-matches)
  | inr (x, e) ↦ ground (arith, e)
]

pub downstream_of-IsDownstream :
    (defaults raw : Fields) (d : Downstream) → downstream_of defaults raw ≡ ok d → IsDownstream d
unfolding downstream_of
downstream_of-IsDownstream defaults raw d h =
    let (tls, _, rest) =
      >>=-eq-ok (as_object (get_or "downstream_tls" (obj Fields.end) raw) "downstream_tls")
        (downstream_fields defaults) h in
    downstream_fields-IsDownstream defaults tls d rest

-- A client identity has a certificate exactly if it has a key.
pub record IsIdentity (c : Identity) : Type 0 where
  pub certificate_safe : nonempty c.certificate ≡ true → safe_token c.certificate ≡ true
  pub reference_safe : nonempty c.reference ≡ true → safe_token c.reference ≡ true
  pub paired : nonempty c.certificate ≡ nonempty c.reference

pub identity-IsIdentity : (raw : Json) (c : Identity) → identity raw ≡ ok c → IsIdentity c
unfolding identity
identity-IsIdentity raw c h = grind (arith, optional_string-safe, nonempty-empty)

pub record IsUpstream (u : Upstream) : Type 0 where
  pub address_safe : safe_token u.address ≡ true
  pub ca_safe : safe_token u.ca ≡ true
  pub verify_needs_tls : u.enabled ≡ false → is_off u.verify ≡ true
  pub identity_rules : IsIdentity u.client_identity
  pub file_identity :
      nonempty u.client_identity.certificate ≡ true
      → is_file_provider u.client_identity.provider ≡ true

pub upstream_of-IsUpstream :
    (defaults raw : Fields) (r : Upstream × Json) → upstream_of defaults raw ≡ ok r → IsUpstream r.0
unfolding upstream_of
upstream_of-IsUpstream defaults raw r h = grind (arith, identity-IsIdentity, string-matches)

pub record IsTimeouts (t : Timeouts) : Type 0 where
  pub connect_ok : timeout t.connect ≡ true
  pub send_ok : timeout t.send ≡ true
  pub read_ok : timeout t.read ≡ true

pub timeouts_of-IsTimeouts :
    (defaults raw : Fields) (t : Timeouts) → timeouts_of defaults raw ≡ ok t → IsTimeouts t
unfolding timeouts_of timeout_string string
timeouts_of-IsTimeouts defaults raw t h = ground arith

pub record IsRollout (gs : List String) (r : Rollout) : Type 0 where
  pub share_bounded : r.hybrid_percentage ≤ 100
  pub pure_without_fallback : r.fallback_allowed ≡ false → mem "X25519" gs ≡ false

pub rollout_of-IsRollout :
    (mode : Mode) (gs : List String) (raw : Fields) (r : Rollout)
    → rollout_of mode gs raw ≡ ok r
    → IsRollout gs r
unfolding rollout_of percent
rollout_of-IsRollout mode gs raw r h = ground arith

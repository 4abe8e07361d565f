-- ===== src/Config/Fields.antt =====
-- The field validators of gateway/model.py: `_string`, `_optional`, `_port`, `_timeout`,
-- `_boolean`, `_groups` and `_identity`. An error names the field; the code puts the service's id
-- in front of it and the refused value behind it.
use Prim.Native.Char.{code}
use pq_migration_gateway.Prelude.{
  ℕ, String, Bool, true, false, not, ◌&&◌, ◌||◌, List, [], ◌∷◌, Option, none, some, ◌==◌,
  if◌then◌else◌, leb, eqb, keep, mem,
}
use pq_migration_gateway.Prelude.Int.{pos}
use pq_migration_gateway.Prelude.Text.{between, is_alnum, is_digit, all_codes, lower, split_colon}
use pq_migration_gateway.Result.{Result, ok, err, config_error, type_error, ◌>>=◌, ◌>>◌, require}
use pq_migration_gateway.Json.{
  Json, Fields, null, bool, num, real, str, arr, obj, elements, get, get_or, dict,
}

unfoldable pub nonempty : String → Bool
nonempty String.[] = false
nonempty (String.◌∷◌ _ _) = true

-- `SAFE_NAME`, `^[A-Za-z0-9._-]+$`
abbrev pub name_code : ℕ → Bool
name_code c = is_alnum c || eqb c b'.' || eqb c b'_' || eqb c b'-'

unfoldable pub safe_name : String → Bool
unfolding nonempty
safe_name s = nonempty s && all_codes name_code s

-- `SAFE_TOKEN`, `^[A-Za-z0-9._:/@+\-]+$`
abbrev pub token_code : ℕ → Bool
token_code c = name_code c || eqb c b':' || eqb c b'/' || eqb c b'@' || eqb c b'+'

unfoldable pub safe_token : String → Bool
unfolding nonempty
safe_token s = nonempty s && all_codes token_code s

-- `TIMEOUT`, `^[1-9][0-9]*(?:ms|s|m)$`
timeout_rest : String → Bool
timeout_rest String.[] = false
timeout_rest (String.◌∷◌ c s) =
    let rest = timeout_rest s in
    if is_digit (code c)
    then rest
    else String.◌∷◌ c s == "ms" || String.◌∷◌ c s == "s" || String.◌∷◌ c s == "m"

unfoldable pub timeout : String → Bool
unfolding timeout_rest
timeout String.[] = false
timeout (String.◌∷◌ c s) = between b'1' b'9' (code c) && timeout_rest s

pub data Mode : Type 0 where
  compatibility strict classical custom : Mode

pub data ClientAuth : Type 0 where
  off optional required : ClientAuth

pub data Verify : Type 0 where
  off on required : Verify

pub data Provider : Type 0 where
  file pkcs11 vault kms : Provider

-- `str(value).lower()`. The text of a number begins with a digit, a sign, `inf` or `nan`, and that
-- of an array or object with a bracket: `none`, since no word of the program is such a text.
unfoldable pub word : Json → Option String
word null = some "none"
word (bool true) = some "true"
word (bool false) = some "false"
word (num _) = none
word (real _) = none
word (str s) = some (lower s)
word (arr _) = none
word (obj _) = none

-- `_string`
unfoldable pub string : (String → Bool) → Json → String → Result String
string pattern (str s) field = if nonempty s && pattern s then ok s else err (config_error field)
string pattern _ field = err (config_error field)

-- `_optional`. An array or object is not hashable, so `value in {None, ""}` raises a `TypeError`.
unfoldable pub optional_string : Json → String → Result String
unfolding string
optional_string null field = ok ""
optional_string (str s) field = if s == "" then ok "" else string safe_token (str s) field
optional_string (arr _) field = err (type_error field)
optional_string (obj _) field = err (type_error field)
optional_string _ field = err (config_error field)

-- `_port`
unfoldable pub port : Json → String → Result ℕ
port (num (pos n)) field = if leb 1 n && leb n 65535 then ok n else err (config_error field)
port _ field = err (config_error field)

-- `_timeout`
unfoldable pub timeout_string : Json → String → Result String
unfolding string
timeout_string = string timeout

-- `_boolean`
unfoldable pub boolean : Json → String → Result Bool
boolean (bool b) field = ok b
boolean _ field = err (config_error field)

-- The members of `TLS_MODES`, `CLIENT_AUTH`, `VERIFY` and the private-key providers, by name.
unfoldable pub mode_of : String → Option Mode
mode_of s =
    if s == "compatibility"
    then some Mode.compatibility
    else if s == "strict"
    then some Mode.strict
    else if s == "classical"
    then some Mode.classical
    else if s == "custom"
    then some Mode.custom
    else none

unfoldable pub mode_name : Mode → String
mode_name Mode.compatibility = "compatibility"
mode_name Mode.strict = "strict"
mode_name Mode.classical = "classical"
mode_name Mode.custom = "custom"

unfoldable pub client_auth_of : String → Option ClientAuth
client_auth_of s =
    if s == "off"
    then some ClientAuth.off
    else if s == "optional"
    then some ClientAuth.optional
    else if s == "required"
    then some ClientAuth.required
    else none

unfoldable pub client_auth_name : ClientAuth → String
client_auth_name ClientAuth.off = "off"
client_auth_name ClientAuth.optional = "optional"
client_auth_name ClientAuth.required = "required"

unfoldable pub verify_of : String → Option Verify
verify_of s =
    if s == "off"
    then some Verify.off
    else if s == "on"
    then some Verify.on
    else if s == "required"
    then some Verify.required
    else none

unfoldable pub verify_name : Verify → String
verify_name Verify.off = "off"
verify_name Verify.on = "on"
verify_name Verify.required = "required"

unfoldable pub provider_of : String → Option Provider
provider_of s =
    if s == "file"
    then some Provider.file
    else if s == "pkcs11"
    then some Provider.pkcs11
    else if s == "vault"
    then some Provider.vault
    else if s == "kms"
    then some Provider.kms
    else none

unfoldable pub provider_name : Provider → String
provider_name Provider.file = "file"
provider_name Provider.pkcs11 = "pkcs11"
provider_name Provider.vault = "vault"
provider_name Provider.kms = "kms"

-- `word = str(raw).lower()`, and the error if it is not among the words
abbrev choice {ℓ} : {A : Type ℓ} → (String → Option A) → Option String → String → Result A
choice of none field = err (config_error field)
choice of (some w) field = elim (of w) [ none ↦ err (config_error field) | some a ↦ ok a ]

unfoldable pub one_of {ℓ} : {A : Type ℓ} → (String → Option A) → Json → String → Result A
unfolding word
one_of of raw field = choice of (word raw) field

-- The groups that `TLS_MODES` gives a mode.
abbrev pub mode_groups : Mode → List String
mode_groups Mode.compatibility = "X25519MLKEM768" ∷ "X25519" ∷ []
mode_groups Mode.strict = "X25519MLKEM768" ∷ []
mode_groups Mode.classical = "X25519" ∷ []
mode_groups Mode.custom = []

-- `[_string(x, field) for x in raw]`
unfoldable pub strings : List Json → String → Result (List String)
unfolding string
strings [] field = ok []
strings (j ∷ js) field = do s ← string safe_token j field; ss ← strings js field; ok (s ∷ ss)

-- The three forms of `downstream_tls.groups`. A colon-delimited string is split and not matched
-- against `SAFE_TOKEN`.
unfoldable pub raw_groups : Mode → Json → Result (List String)
unfolding strings
raw_groups mode null = ok (mode_groups mode)
raw_groups mode (str s) = ok (keep nonempty (split_colon s))
raw_groups mode (arr js) = strings (elements js) "downstream_tls.groups"
raw_groups mode _ = err (config_error "downstream_tls.groups")

-- `len(groups) == len(set(groups))`
abbrev pub distinct : List String → Bool
distinct [] = true
distinct (g ∷ gs) = not (mem g gs) && distinct gs

abbrev pub is_strict : Mode → Bool
is_strict Mode.strict = true
is_strict _ = false

abbrev pub is_classical : Mode → Bool
is_classical Mode.classical = true
is_classical _ = false

abbrev pub is_empty {ℓ} : {A : Type ℓ} → List A → Bool
is_empty [] = true
is_empty (_ ∷ _) = false

-- `_groups`
unfoldable pub groups : Fields → Result (Mode × List String)
unfolding one_of raw_groups
groups tls = do
  mode ← one_of mode_of (get_or "mode" (str "compatibility") tls) "downstream_tls.mode"
  gs ← raw_groups mode (get "groups" tls)
  require (not (is_empty gs)) (config_error "downstream_tls.groups must not be empty")
  require (distinct gs) (config_error "downstream_tls.groups contains duplicates")
  require (not (is_strict mode && mem "X25519" gs))
      (config_error "strict mode must not include classical X25519 fallback")
  ok (mode, gs)

pub record Identity : Type 0 where
  pub certificate : String
  pub provider : Provider
  pub reference : String

abbrev pub no_identity : Identity
no_identity = record { certificate = ""; provider = Provider.file; reference = "" }

-- `if isinstance(key, str): …`, `if not isinstance(key, dict): raise`
unfoldable pub key_fields : Json → String → Result Fields
key_fields (str s) field = ok (dict (("provider", str "file") ∷ ("reference", str s) ∷ []))
key_fields (obj fs) field = ok fs
key_fields _ field = err (config_error field)

unfoldable pub as_object : Json → String → Result Fields
as_object (obj fs) field = ok fs
as_object _ field = err (config_error field)

identity_fields : Fields → Result Identity
identity_fields raw = do
  cert ← optional_string (get "certificate" raw) "certificate"
  key ← key_fields (get_or "private_key" (obj Fields.end) raw) "private_key"
  provider ← one_of provider_of (get_or "provider" (str "file") key) "private-key provider"
  reference ← optional_string (get "reference" key) "private_key.reference"
  require (if nonempty cert then nonempty reference else not (nonempty reference))
      (config_error "requires both certificate and private-key reference")
  ok (record { certificate = cert; provider = provider; reference = reference })

-- `_identity`
unfoldable pub identity : Json → Result Identity
unfolding identity_fields
identity null = ok no_identity
identity (str s) = if s == "" then ok no_identity else err (config_error "client_identity")
identity (obj raw) = identity_fields raw
identity _ = err (config_error "client_identity")

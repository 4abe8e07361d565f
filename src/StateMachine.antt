-- ===== src/StateMachine.antt =====
-- The service migration state machine, manager/state_machine.py.
pub mod Paths
mod Tests
use pq_migration_gateway.Prelude.{
  ℕ, ◌<◌, String, Bool, true, false, not, ◌&&◌, List, [], ◌∷◌, Option, none, some, ◌==◌, eqb, leb,
  any, if◌then◌else◌, take, keep,
}
use Prim.Native.String.{count}
use pq_migration_gateway.Prelude.Int.{ℤ, pos, leb_ℤ}
use pq_migration_gateway.Prelude.Text.{upper, is_blank}
use pq_migration_gateway.Result.{Error, Result, ok, err, transition_error, ◌>>=◌, ◌>>◌, require}
use pq_migration_gateway.Json.{Json, null, num, str, obj, dict}
use pq_migration_gateway.Store.Rows.{find_row, upsert_row, clamp_limit}
use pq_migration_gateway.Store.Tables.{
  MigrationState, discovered, assessed, planned, compatibility, pqc_preferred, strict, verified,
  degraded, rolled_back, blocked, StateRow, TransitionRow, ObjectId, name_id, Store,
}
use pq_migration_gateway.Store.Releases.{audit_conn, or_raise, version_json}

unfoldable pub state_name : MigrationState → String
state_name discovered = "DISCOVERED"
state_name assessed = "ASSESSED"
state_name planned = "PLANNED"
state_name compatibility = "COMPATIBILITY"
state_name pqc_preferred = "PQC_PREFERRED"
state_name strict = "STRICT"
state_name verified = "VERIFIED"
state_name degraded = "DEGRADED"
state_name rolled_back = "ROLLED_BACK"
state_name blocked = "BLOCKED"

-- STATES
abbrev pub states : List MigrationState
states =
    discovered ∷ assessed ∷ planned ∷ compatibility ∷ pqc_preferred ∷ strict ∷ verified ∷ degraded
    ∷ rolled_back ∷ blocked ∷ []

unfoldable pub find_state : String → List MigrationState → Option MigrationState
unfolding state_name
find_state s [] = none
find_state s (m ∷ ms) = if state_name m == s then some m else find_state s ms

-- `target in STATES`, as the member with that name
unfoldable pub state_of : String → Option MigrationState
unfolding find_state
state_of s = find_state s states

abbrev rank : MigrationState → ℕ
rank discovered = 0
rank assessed = 1
rank planned = 2
rank compatibility = 3
rank pqc_preferred = 4
rank strict = 5
rank verified = 6
rank degraded = 7
rank rolled_back = 8
rank blocked = 9

abbrev pub same_state : MigrationState → MigrationState → Bool
same_state a b = eqb (rank a) (rank b)

-- TRANSITIONS
abbrev pub transitions : MigrationState → List MigrationState
transitions discovered = assessed ∷ blocked ∷ []
transitions assessed = planned ∷ blocked ∷ []
transitions planned = compatibility ∷ pqc_preferred ∷ strict ∷ blocked ∷ []
transitions compatibility = pqc_preferred ∷ strict ∷ degraded ∷ rolled_back ∷ blocked ∷ []
transitions pqc_preferred = strict ∷ verified ∷ degraded ∷ rolled_back ∷ blocked ∷ []
transitions strict = verified ∷ degraded ∷ rolled_back ∷ blocked ∷ []
transitions verified = degraded ∷ rolled_back ∷ []
transitions degraded = compatibility ∷ pqc_preferred ∷ strict ∷ rolled_back ∷ blocked ∷ []
transitions rolled_back = planned ∷ compatibility ∷ blocked ∷ []
transitions blocked = planned ∷ assessed ∷ []

abbrev pub may_move : MigrationState → MigrationState → Bool
may_move source target = any (same_state target) (transitions source)

abbrev pub has_service : String → StateRow → Bool
has_service sid row = row.service_id == sid

-- `get`
unfoldable pub get_state : String → Store → Option StateRow
get_state sid st = find_row (has_service sid) st.service_states

abbrev pub source_of : Option StateRow → Option MigrationState
source_of none = none
source_of (some row) = some row.state

-- The test of the target against the current state: a service that is not known enters DISCOVERED.
abbrev pub may_enter : Option MigrationState → MigrationState → Bool
may_enter none target = same_state target discovered
may_enter (some source) target = may_move source target

-- `fallback_rate is not None and not 0 <= fallback_rate <= 1`, in millionths
abbrev pub is_rate : Option ℤ → Bool
is_rate none = true
is_rate (some r) = leb_ℤ (pos 0) r && leb_ℤ r (pos 1000000)

-- `not verification_result`
abbrev pub has_text : Option String → Bool
has_text none = false
has_text (some s) = not (s == "")

pub record Change : Type 0 where
  pub operator : String
  pub reason : String
  pub config_version : Option ℕ
  pub verification_result : Option String
  pub fallback_rate : Option ℤ

unfoldable pub text_json : Option String → Json
text_json none = null
text_json (some s) = str s

-- A rate, in millionths.
unfoldable pub rate_json : Option ℤ → Json
rate_json none = null
rate_json (some r) = num r

unfoldable pub state_json : Option MigrationState → Json
unfolding state_name
state_json none = null
state_json (some m) = str (state_name m)

abbrev pub state_row : String → MigrationState → Change → ℕ → StateRow
state_row sid target c now = record {
  service_id = sid;
  state = target;
  config_version = c.config_version;
  updated_at = now;
  operator = c.operator;
  reason = c.reason;
}

abbrev pub transition_row :
    String → Option MigrationState → MigrationState → Change → ℕ → TransitionRow
transition_row sid source target c now = record {
  service_id = sid;
  from_state = source;
  to_state = target;
  config_version = c.config_version;
  verification_result = c.verification_result;
  fallback_rate = c.fallback_rate;
  operator = c.operator;
  reason = c.reason;
  created_at = now;
}

-- The three statements of the transaction.
unfoldable pub write_transition :
    String → Option MigrationState → MigrationState → Change → ℕ → Store → Store
unfolding audit_conn state_json text_json rate_json
write_transition sid source target c now st =
    audit_conn now c.operator "migration.transition" "migration_state" (name_id sid)
      (obj (
        dict (
          ("from", state_json source)
          ∷ ("to", str (state_name target))
          ∷ ("reason", str c.reason)
          ∷ ("config_version", version_json c.config_version)
          ∷ ("verification_result", text_json c.verification_result)
          ∷ ("fallback_rate", rate_json c.fallback_rate)
          ∷ [])))
      (record st {
        service_states =
            upsert_row (has_service sid) (λ _. state_row sid target c now)
              (state_row sid target c now) st.service_states;
        state_transitions = transition_row sid source target c now ∷ st.state_transitions;
      })

-- `transition`, once `target.upper()` is known to be a state
unfoldable pub enter : String → MigrationState → Change → ℕ → Store → Result Store
enter sid target c now st = do
  let source = source_of (get_state sid st)
  require (may_enter source target) (transition_error "invalid transition")
  require (is_rate c.fallback_rate) (transition_error "fallback_rate must be between 0 and 1")
  require (if same_state target verified then has_text c.verification_result else true)
      (transition_error "VERIFIED requires a verification_result")
  ok (write_transition sid source target c now st)

unfoldable pub transition : String → String → Change → ℕ → Store → Result Store
transition sid target c now st = do
  require (not (sid == "") && leb (count sid) 128) (transition_error "service_id")
  require (not (is_blank c.reason)) (transition_error "migration transition requires a reason")
  m ← or_raise (transition_error "unknown migration state") (state_of (upper target))
  enter sid m c now st

abbrev pub moves_service : String → TransitionRow → Bool
moves_service sid t = t.service_id == sid

-- `history`
unfoldable pub history : String → ℕ → Store → List TransitionRow
history sid limit st = take (clamp_limit 1000 limit) (keep (moves_service sid) st.state_transitions)

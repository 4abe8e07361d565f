-- ===== src/Store/Releases.antt =====
-- Config versions and their status in manager/config_store.py: `create_version`,
-- `update_draft_artifacts`, `set_status`, `get_version`, `list_versions`, `latest_version`, and the
-- audit log.
pub mod History
pub mod Steps
pub mod Immutable
pub mod Health
pub mod Moves
pub mod Tests
use pq_migration_gateway.Prelude.{
  ℕ, suc, ◌≡◌, String, Bool, true, false, not, ◌||◌, List, [], ◌∷◌, Option, none, some, ◌==◌, eqb,
  any, if◌then◌else◌, take, is_some, keep,
}
use mathlib.Core.List.{reverse}
use pq_migration_gateway.Prelude.Int.{pos}
use pq_migration_gateway.Result.{
  Error, Result, ok, err, release_error, release_transition, unknown_version, integrity_error,
  ◌>>=◌, ◌>>◌, require,
}
use pq_migration_gateway.Json.{Json, Fields, null, num, str, obj, dict}
use pq_migration_gateway.Store.Rows.{find_row, update_rows, clamp_limit, from_row}
use pq_migration_gateway.Store.Tables.{
  ReleaseStatus, draft, validated, staged, applied, healthy, validation_failed, nginx_test_failed,
  reload_failed, health_check_failed, rolled_back, candidate, ready, failed, VersionRow,
  StatusEvent, AuditEvent, ObjectId, version_id, Store,
}

unfoldable pub status_name : ReleaseStatus → String
status_name draft = "DRAFT"
status_name validated = "VALIDATED"
status_name staged = "STAGED"
status_name applied = "APPLIED"
status_name healthy = "HEALTHY"
status_name validation_failed = "VALIDATION_FAILED"
status_name nginx_test_failed = "NGINX_TEST_FAILED"
status_name reload_failed = "RELOAD_FAILED"
status_name health_check_failed = "HEALTH_CHECK_FAILED"
status_name rolled_back = "ROLLED_BACK"
status_name candidate = "CANDIDATE"
status_name ready = "READY"
status_name failed = "FAILED"

abbrev pub release_states : List ReleaseStatus
release_states =
    draft ∷ validated ∷ staged ∷ applied ∷ healthy ∷ validation_failed ∷ nginx_test_failed
    ∷ reload_failed ∷ health_check_failed ∷ rolled_back ∷ candidate ∷ ready ∷ failed ∷ []

-- `status in RELEASE_STATES`, as the member with that name.
find_status : String → List ReleaseStatus → Option ReleaseStatus
unfolding status_name
find_status s [] = none
find_status s (st ∷ sts) = if status_name st == s then some st else find_status s sts

unfoldable pub status_of : String → Option ReleaseStatus
unfolding find_status
status_of s = find_status s release_states

abbrev rank : ReleaseStatus → ℕ
rank draft = 0
rank validated = 1
rank staged = 2
rank applied = 3
rank healthy = 4
rank validation_failed = 5
rank nginx_test_failed = 6
rank reload_failed = 7
rank health_check_failed = 8
rank rolled_back = 9
rank candidate = 10
rank ready = 11
rank failed = 12

-- `a == b` on statuses
abbrev pub same_status : ReleaseStatus → ReleaseStatus → Bool
same_status a b = eqb (rank a) (rank b)

-- `RELEASE_TRANSITIONS.get(current, set())`
abbrev pub release_transitions : ReleaseStatus → List ReleaseStatus
release_transitions draft = validated ∷ validation_failed ∷ []
release_transitions validated = staged ∷ []
release_transitions staged =
    applied ∷ validation_failed ∷ nginx_test_failed ∷ reload_failed ∷ rolled_back ∷ []
release_transitions applied = healthy ∷ health_check_failed ∷ reload_failed ∷ rolled_back ∷ []
release_transitions health_check_failed = rolled_back ∷ []
release_transitions reload_failed = rolled_back ∷ []
release_transitions healthy = rolled_back ∷ []
release_transitions candidate = ready ∷ validated ∷ validation_failed ∷ []
release_transitions ready = applied ∷ nginx_test_failed ∷ reload_failed ∷ rolled_back ∷ []
release_transitions failed = rolled_back ∷ []
release_transitions validation_failed = []
release_transitions nginx_test_failed = []
release_transitions rolled_back = []

abbrev pub may_follow : ReleaseStatus → ReleaseStatus → Bool
may_follow current status = any (same_status status) (release_transitions current)

abbrev pub has_version : ℕ → VersionRow → Bool
has_version v row = eqb row.version v

unfoldable pub find_version : ℕ → Store → Option VersionRow
find_version v st = find_row (has_version v) st.config_versions

-- The first row, or the exception.
abbrev pub or_raise {ℓ} : {A : Type ℓ} → Error → Option A → Result A
or_raise e none = err e
or_raise e (some a) = ok a

-- `_audit_conn`, with an exception among the details or without
unfoldable pub audit_error :
    Option Error → ℕ → String → String → String → ObjectId → Json → Store → Store
audit_error error now actor action object_type object_id details st = record st {
  audit_events =
      record {
        created_at = now;
        actor = actor;
        action = action;
        object_type = object_type;
        object_id = object_id;
        details = details;
        error_detail = error;
      }
      ∷ st.audit_events;
}

unfoldable pub audit_conn : ℕ → String → String → String → ObjectId → Json → Store → Store
unfolding audit_error
audit_conn = audit_error none

-- `audit`
unfoldable pub audit : ℕ → String → String → String → ObjectId → Json → Store → Store
unfolding audit_conn
audit = audit_conn

-- `list_audit`
unfoldable pub list_audit : ℕ → Store → List AuditEvent
list_audit limit st = take (clamp_limit 1000 limit) st.audit_events

abbrev pub version_json : Option ℕ → Json
version_json none = null
version_json (some v) = num (pos v)

-- The foreign key `rollback_from REFERENCES config_versions(version)`.
abbrev pub is_version : Option ℕ → Store → Bool
is_version none st = true
is_version (some v) st = is_some (find_version v st)

abbrev pub status_event :
    ℕ → Option ReleaseStatus → ReleaseStatus → String → Option Error → ℕ → StatusEvent
status_event version from to actor error now = record {
  version = version;
  from_status = from;
  to_status = to;
  actor = actor;
  error = error;
  created_at = now;
}

-- What `create_version` writes, once the initial status is known to be a release state.
unfoldable pub write_version :
    String → Json → String → String → ReleaseStatus → Option ℕ → ℕ → Store → Store
unfolding audit_conn
write_version checksum source rendered operator initial rollback_from now st =
    let version = suc st.version_seq in
    audit_conn now operator "config.create" "config_version" (version_id version)
      (obj (
        dict (
          ("checksum", str checksum)
          ∷ ("rollback_from", version_json rollback_from)
          ∷ ("status", str (status_name initial))
          ∷ [])))
      (record st {
        version_seq = version;
        config_versions =
            record {
              version = version;
              checksum = checksum;
              created_at = now;
              operator = operator;
              status = initial;
              rollback_from = rollback_from;
              source = source;
              rendered_config = rendered;
              error = none;
            }
            ∷ st.config_versions;
        config_status_events =
            status_event version none initial operator none now ∷ st.config_status_events;
      })

unfoldable pub create_version :
    String → Json → String → String → String → Option ℕ → ℕ → Store → Result (ℕ × Store)
create_version checksum source rendered operator status rollback_from now st = do
  initial ← or_raise (release_error "unknown release status") (status_of status)
  require (is_version rollback_from st) (integrity_error "config_versions.rollback_from")
  ok (
    suc st.version_seq,
    write_version checksum source rendered operator initial rollback_from now st,
  )

-- `row["status"] in {"DRAFT", "CANDIDATE"}`
abbrev pub is_open : ReleaseStatus → Bool
is_open draft = true
is_open candidate = true
is_open _ = false

abbrev pub with_artifacts : String → Json → String → VersionRow → VersionRow
with_artifacts checksum source rendered r = record r {
  checksum = checksum;
  source = source;
  rendered_config = rendered;
}

unfoldable pub update_draft_artifacts : ℕ → String → Json → String → Store → Result Store
unfolding find_version
update_draft_artifacts version checksum source rendered st = do
  row ← or_raise (unknown_version version) (find_version version st)
  require (is_open row.status) (release_error "release artifacts are immutable after validation")
  ok (record st {
    config_versions =
        update_rows (has_version version) (with_artifacts checksum source rendered)
          st.config_versions;
  })

abbrev pub with_status : ReleaseStatus → Option Error → VersionRow → VersionRow
with_status status error r = record r { status = status; error = error }

-- What `set_status` writes once the transition is accepted.
unfoldable pub write_status :
    ℕ → ReleaseStatus → ReleaseStatus → String → Option Error → ℕ → Store → Store
unfolding audit_error
write_status version current status actor error now st =
    audit_error error now actor "config.status" "config_version" (version_id version)
      (obj (dict (("from", str (status_name current)) ∷ ("status", str (status_name status)) ∷ [])))
      (record st {
        config_versions =
            update_rows (has_version version) (with_status status error) st.config_versions;
        config_status_events =
            status_event version (some current) status actor error now ∷ st.config_status_events;
      })

-- The transaction of `set_status`, once `status` is known to be a release state.
unfoldable pub set_known_status :
    ℕ → ReleaseStatus → String → Option Error → ℕ → Store → Result Store
unfolding find_version
set_known_status version status actor error now st = do
  row ← or_raise (unknown_version version) (find_version version st)
  if same_status row.status status then ok st else do
    require (may_follow row.status status)
        (release_transition (status_name row.status) (status_name status))
    ok (write_status version row.status status actor error now st)

unfoldable pub set_status : ℕ → String → String → Option Error → ℕ → Store → Result Store
set_status version status actor error now st = do
  target ← or_raise (release_error "unknown release status") (status_of status)
  set_known_status version target actor error now st

pub record VersionView : Type 0 where
  pub row : VersionRow
  pub status_history : List StatusEvent

abbrev pub has_event : ℕ → StatusEvent → Bool
has_event v e = eqb e.version v

-- `get_version`: the row, and its events from the oldest to the newest.
unfoldable pub get_version : ℕ → Store → Result VersionView
unfolding find_version
get_version version st = do
  row ← or_raise (unknown_version version) (find_version version st)
  ok (record {
    row = row;
    status_history = reverse (keep (has_event version) st.config_status_events);
  })

-- `list_versions`
unfoldable pub list_versions : ℕ → Store → List VersionRow
list_versions limit st = take (clamp_limit 500 limit) st.config_versions

-- `latest_version`
unfoldable pub latest_version : Store → Result (Option VersionView)
unfolding get_version
latest_version st = elim st.config_versions [
  | [] ↦ ok none
  | row ∷ _ ↦ (do view ← get_version row.version st; ok (some view))
]

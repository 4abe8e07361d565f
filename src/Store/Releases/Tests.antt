-- ===== src/Store/Releases/Tests.antt =====
-- Runs of the release operations on concrete releases.
use pq_migration_gateway.Prelude.{◌≡◌, refl, none, ◌⊎◌, true}
use pq_migration_gateway.Json.{Fields, obj}
use pq_migration_gateway.Store.Rows.{find_row, update_rows}
use pq_migration_gateway.Store.Tables.{
  draft, validated, staged, applied, healthy, VersionRow, Store, empty_store,
}
use pq_migration_gateway.Store.Releases.{
  status_of, create_version, write_version, set_status, set_known_status, write_status,
  find_version,
}
use pq_migration_gateway.Store.Releases.History.{IsRecorded}
use pq_migration_gateway.Store.Releases.Steps.{created, moved, Reach, here, next, Reach-IsRecorded}
use pq_migration_gateway.Store.Releases.Immutable.{Holds, Reach-immutable}
use pq_migration_gateway.Store.Releases.Health.{entered, created_as, Reach-healthy}

abbrev pub drafted : Store
drafted = write_version "digest" (obj Fields.end) "" "ops" draft none 1 empty_store

abbrev pub checked : Store
checked = write_status 1 draft validated "ops" none 2 drafted

abbrev pub is_staged : Store
is_staged = write_status 1 validated staged "ops" none 3 checked

abbrev pub is_applied : Store
is_applied = write_status 1 staged applied "agent" none 4 is_staged

abbrev pub is_healthy : Store
is_healthy = write_status 1 applied healthy "agent" none 5 is_applied

to_checked : Reach empty_store checked
unfolding create_version set_status set_known_status find_version find_row status_of write_version
to_checked =
    next (next here (created "digest" (obj Fields.end) "" "ops" "DRAFT" none 1 1 refl))
      (moved 1 "VALIDATED" "ops" none 2 refl)

to_healthy : Reach checked is_healthy
unfolding set_status set_known_status find_version find_row status_of write_version write_status
    update_rows
to_healthy =
    next
      (next (next here (moved 1 "STAGED" "ops" none 3 refl))
        (moved 1 "APPLIED" "agent" none 4 refl))
      (moved 1 "HEALTHY" "agent" none 5 refl)

follow : {st st' st'' : Store} → Reach st st' → Reach st' st'' → Reach st st''
follow r here = r
follow r (next s step) = next (follow r s) step

Reach-IsRecorded_example : IsRecorded checked
Reach-IsRecorded_example = Reach-IsRecorded to_checked

checked_row : VersionRow
checked_row = record {
  version = 1;
  checksum = "digest";
  created_at = 1;
  operator = "ops";
  status = validated;
  rollback_from = none;
  source = obj Fields.end;
  rendered_config = "";
  error = none;
}

Reach-immutable_example : Holds 1 checked_row is_healthy
unfolding find_version find_row write_version write_status update_rows checked_row
Reach-immutable_example = Reach-immutable 1 checked_row to_checked refl refl to_healthy

Reach-healthy_example :
    (created_as 1 healthy is_healthy.config_status_events ≡ true)
    ⊎ (entered 1 applied is_healthy.config_status_events ≡ true)
unfolding find_version find_row write_version write_status update_rows checked_row
Reach-healthy_example = Reach-healthy 1 (follow to_checked to_healthy) refl

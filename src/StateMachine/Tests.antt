-- ===== src/StateMachine/Tests.antt =====
-- A service that is discovered and assessed.
use pq_migration_gateway.Prelude.{refl, none, some}
use pq_migration_gateway.Prelude.Text.{upper, is_blank}
use pq_migration_gateway.Store.Rows.{find_row, upsert_row}
use pq_migration_gateway.Store.Tables.{discovered, assessed, Store, empty_store}
use pq_migration_gateway.StateMachine.{
  Change, transition, enter, state_of, get_state, write_transition,
}
use pq_migration_gateway.StateMachine.Paths.{Reach, new, move, IsAudited, Reach-IsAudited}

abbrev found : Change
found = record {
  operator = "ops";
  reason = "scan";
  config_version = none;
  verification_result = none;
  fallback_rate = none;
}

abbrev one_step : Store
one_step = write_transition "bank" none discovered found 1 empty_store

abbrev two_steps : Store
two_steps = write_transition "bank" (some discovered) assessed found 2 one_step

to_two_steps : Reach two_steps
unfolding transition enter state_of get_state write_transition find_row upsert_row upper is_blank
to_two_steps = move (move new "bank" "discovered" found 1 refl) "bank" "ASSESSED" found 2 refl

Reach-IsAudited_example : IsAudited two_steps
Reach-IsAudited_example = Reach-IsAudited to_two_steps

-- ===== src/Agent/Watch.antt =====
-- `watch` of gateway/agent.py: what comes before its loop, and one round of it.
use pq_migration_gateway.Prelude.{ℕ, Bool, false, Option, none, some, ◌==◌, eqb, if◌then◌else◌}
use pq_migration_gateway.Result.{Error, value_error}
use pq_migration_gateway.Exec.{Exec, pure, ◌>>=◌, ◌>>◌, catch}
use pq_migration_gateway.World.{missing, unreadable, holds, Observed, World, Host}
use pq_migration_gateway.Agent.{GatewayAgent, observed, heartbeat, apply}

-- The variables of the loop in `watch`.
pub record Watch : Type 0 where
  pub last_version : Option ℕ
  pub current_version : Option ℕ
  pub desired_version : Option ℕ

abbrev same_version : Option ℕ → ℕ → Bool
same_version none v = false
same_version (some u) v = eqb u v

abbrev or_current : Option ℕ → Option ℕ → Option ℕ
or_current current none = current
or_current current (some v) = some v

abbrev healthy_version : Option Observed → Option ℕ
healthy_version none = none
healthy_version (some o) = if o.status == "HEALTHY" then o.version else none

-- `watch` before its loop
unfoldable pub watch_start : Host → GatewayAgent → Exec World Watch
unfolding observed
watch_start h g w =
    let last = healthy_version (observed w) in
    (do
      heartbeat h g last none "WATCHING" "healthy" none none
      pure (record { last_version = last; current_version = last; desired_version = none }))
      w

abbrev degraded : Host → GatewayAgent → Watch → Error → Exec World Watch
degraded h g s e = do
  heartbeat h g s.current_version s.desired_version "DEGRADED" "degraded" none (some e)
  pure s

-- One round of the loop.
unfoldable pub watch_step : Host → GatewayAgent → Watch → Exec World Watch
unfolding apply
watch_step h g s w = elim w.desired [
  | missing ↦ (heartbeat h g s.current_version none "WAITING" "healthy" none none >> pure s) w
  | unreadable ↦ degraded h g s (value_error "desired.json") w
  | holds d ↦
      let s' : Watch = record s { desired_version = some d.version } in
      if same_version s.last_version d.version
      then (heartbeat h g s.current_version (some d.version) "HEALTHY" "healthy" none none
            >> pure s')
          w
      else (let tried : Watch = record s' { last_version = some d.version } in
          catch
            (do
              result ← apply h g d.version
              pure (record tried { current_version = or_current s.current_version result.version }))
            (degraded h g tried) w)
]

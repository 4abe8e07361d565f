-- ===== src/Agent/Restore.antt =====
-- A failed activation brings the previous configuration back (gateway/agent.py).
use pq_migration_gateway.Prelude.{ℕ, ◌≡◌, String, Bool, true, false, Option, some, arith, ◌∷◌, []}
use pq_migration_gateway.Prelude.Text.{lower}
use pq_migration_gateway.Result.{Error, ok}
use pq_migration_gateway.Exec.{◌>>=◌, catch}
use pq_migration_gateway.Store.Tables.{Store, ReleaseStatus}
use pq_migration_gateway.Store.Metrics.{increment_metric, real, Labels}
use pq_migration_gateway.Prelude.Int.{ℤ}
use pq_migration_gateway.Store.Releases.{same_status, may_follow, status_of, find_version}
use pq_migration_gateway.Store.Releases.History.{status_at}
use pq_migration_gateway.Store.Releases.Moves.{set_status-moves}
use pq_migration_gateway.World.{World, Host}
use pq_migration_gateway.Agent.{
  GatewayAgent, on_store, command, heartbeat, restore, rollback, record_failure, give_up,
  count_rollback,
}
use pq_migration_gateway.Agent.Keeps.{Fails, raise-Fails, >>=-Fails, Keeps}

abbrev pub active_file : World → Option String
active_file w = w.active

pub at_counted :
    (v : ℕ) (name : String) (amount : ℤ) (labels : Labels) (help : String) (now : ℕ) (st : Store)
    {s : ReleaseStatus}
    → status_at v st ≡ some s
    → status_at v (increment_metric name amount labels help now st) ≡ some s
unfolding find_version increment_metric
at_counted v name amount labels help now st h = h

module _ (h : Host) (g : GatewayAgent) where
  pub heartbeat-Keeps :
      (current desired : Option ℕ) (status health : String) (reload : Option String)
      (e : Option Error)
      → Keeps active_file (heartbeat h g current desired status health reload e)
  unfolding heartbeat on_store
  heartbeat-Keeps current desired status health reload e w = ground arith

  -- `restore` ends with the backup as the active file, whatever the commands answer.
  restore-active :
      (v : ℕ) (pv : Option ℕ) (reason : Error) (w : World)
      → active_file (restore h g v pv reason w).1 ≡ w.previous
  unfolding restore ◌>>=◌ catch command on_store count_rollback heartbeat
  restore-active v pv reason w = ground arith

  rollback-active :
      (v : ℕ) (pv : Option ℕ) (reason : Error) (w : World) (p : String)
      → w.previous ≡ some p
      → active_file (rollback h g v pv reason w).1 ≡ some p
  unfolding rollback
  rollback-active v pv reason w p e = ground (arith, e, restore-active v pv reason w)

  pub give_up-Fails :
      (v : ℕ) (pv : Option ℕ) (had : Bool) (current : Option ℕ) (state : String) (e : Error)
      → Fails (give_up h g v pv had current state e)
  give_up-Fails v pv had current state e =
      >>=-Fails _ _ (λ _. >>=-Fails _ _ (λ _. raise-Fails (Unit {0}) e))

  -- A failure that the transitions allow is recorded, and no file is touched.
  pub record_failure-runs :
      (v : ℕ) (state : String) (e : Error) (w : World) (s target : ReleaseStatus)
      → status_at v w.store ≡ some s
      → status_of state ≡ some target
      → same_status s target ≡ false
      → may_follow s target ≡ true
      → (st : Store) × (record_failure g v state e w ≡ (ok tt, record w { store = st }))
        × (status_at v st ≡ some target)
  unfolding record_failure on_store ◌>>=◌
  record_failure-runs v state e w s target at named other legal =
      let (st, moved, now_at) =
        set_status-moves v state s target g.agent_id (some e) w.now w.store at named other legal in
      (
        increment_metric "gateway_config_apply_failures_total" (real 1)
            (("agent_id", g.agent_id) ∷ ("stage", lower state) ∷ [])
            "Configuration activation failures by data-plane stage." w.now st,
        ground (arith, moved),
        at_counted v _ _ _ _ _ st now_at,
      )

  pub give_up-active :
      (v : ℕ) (pv current : Option ℕ) (state : String) (e : Error) (w : World) (p : String)
      (s target : ReleaseStatus)
      → w.previous ≡ some p
      → status_at v w.store ≡ some s
      → status_of state ≡ some target
      → same_status s target ≡ false
      → may_follow s target ≡ true
      → active_file (give_up h g v pv true current state e w).1 ≡ some p
  unfolding ◌>>=◌
  give_up-active v pv current state e w p s target has_previous at named other legal =
      let (st, recorded, _) = record_failure-runs v state e w s target at named other legal in
      let back = rollback-active v pv e (record w { store = st }) p has_previous in
      ground (arith, recorded, back)

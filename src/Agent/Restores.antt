-- ===== src/Agent/Restores.antt =====
-- The switch to a new configuration in gateway/agent.py: it succeeds, or brings the old one back.
use pq_migration_gateway.Prelude.{
  ℕ, ◌≡◌, refl, String, Bool, true, false, Option, none, some, subst, sym, ap, is_some,
  if◌then◌else◌, ◌==◌,
}
use pq_migration_gateway.Result.{Error, Result, ok, err}
use pq_migration_gateway.Exec.{pure}
use pq_migration_gateway.Store.Tables.{
  ReleaseStatus, staged, applied, healthy, reload_failed, health_check_failed,
}
use pq_migration_gateway.Store.Releases.{status_of, same_status, may_follow}
use pq_migration_gateway.Store.Releases.History.{status_at}
use pq_migration_gateway.Store.Metrics.{write_heartbeat}
use pq_migration_gateway.Store.Releases.Moves.{set_status-moves}
use pq_migration_gateway.World.{World, Host, health_check}
use pq_migration_gateway.Agent.{
  GatewayAgent, command, health, heartbeat, finish, check_health, activate, count_reload,
  reload_active, switch, switch_from, give_up, beat,
}
use pq_migration_gateway.Agent.Restore.{give_up-Fails, give_up-active, at_counted}
use pq_migration_gateway.Agent.Healthy.{heartbeat-runs}
use pq_migration_gateway.Agent.Ends.{
  Ends, >>=-Ends, catch-Ends, raised-Ends, command-Ends, on_store-Ends,
}

-- The backup holds `p`, and version `v` has status `s`.
abbrev Backed : String → ℕ → ReleaseStatus → World → Type 0
Backed p v s w = (w.previous ≡ some p) × (status_at v w.store ≡ some s)

abbrev pub Restored : String → World → Type 0
Restored p w = w.active ≡ some p

-- Before the switch: the old configuration is active, and the version is staged.
abbrev pub Before : String → ℕ → World → Type 0
Before p v w = (w.active ≡ some p) × (status_at v w.store ≡ some staged)

pub heartbeat-Ends :
    (h : Host) (g : GatewayAgent) (P : Unit {0} → World → Type 0) (Q : World → Type 0)
    (current desired : Option ℕ) (status health : String) (reload : Option String)
    (e : Option Error) (w : World)
    → P tt (record w {
      store =
          write_heartbeat g.agent_id
            (beat h g current desired status health reload e w)
            w.now
            w.store;
    })
    → Ends P Q (heartbeat h g current desired status health reload e w)
heartbeat-Ends h g P Q current desired status health reload e w q =
    subst (Ends P Q) (sym (heartbeat-runs h g current desired status health reload e w)) q

module _ (h : Host) (g : GatewayAgent) (v : ℕ) (pv : Option ℕ) (p : String) where
  give_up-Ends :
      (P : Unit {0} → World → Type 0) (current : Option ℕ) (state : String) (e : Error) (w : World)
      (s target : ReleaseStatus)
      → Backed p v s w
      → status_of state ≡ some target
      → same_status s target ≡ false
      → may_follow s target ≡ true
      → Ends P (Restored p) (give_up h g v pv true current state e w)
  give_up-Ends P current state e w s target (backed, at) named other legal =
      raised-Ends P (Restored p) _ (give_up-Fails h g v pv true current state e w)
        (give_up-active h g v pv current state e w p s target backed at named other legal)

  activate-Ends :
      (w : World)
      → Backed p v staged w
      → Ends (λ _. Backed p v applied) (Restored p) (activate h g v pv true w)
  unfolding activate count_reload status_of
  activate-Ends w backed =
      catch-Ends (λ _. Backed p v applied) (Restored p) (Backed p v staged) _ _ w
        (>>=-Ends (λ _. Backed p v staged) _ _ _ _ w backed
          (λ _ w₁ b₁.
            >>=-Ends (λ _. Backed p v staged) _ _ _ _ w₁
              (command-Ends (Backed p v staged) h reload_active w₁ b₁)
              (λ _ w₂ b₂.
                >>=-Ends (λ _. Backed p v staged) _ _ _ _ w₂
                  (on_store-Ends _ _ _ w₂ _ refl (b₂.0, at_counted v _ _ _ _ _ w₂.store b₂.1))
                  (λ _ w₃ b₃.
                    let (st, moved, at) =
                      set_status-moves v "APPLIED" staged applied g.agent_id none w₃.now w₃.store
                        b₃.1 refl refl refl in
                    on_store-Ends _ _ _ w₃ st moved (b₃.0, at)))))
        (λ e w' b. give_up-Ends _ none "RELOAD_FAILED" e w' staged reload_failed b refl refl refl)

  cleared-Ends :
      (q : Result (Unit {0}) × World)
      → Ends (λ _. Backed p v applied) (Restored p) q
      → Ends (λ _. Backed p v applied) (Restored p) (q.0, record q.1 { temporary = none })
  cleared-Ends (ok tt, w) b = b
  cleared-Ends (err e, w) b = b

  check_health-Ends :
      (w : World)
      → Backed p v applied w
      → Ends (λ _. Backed p v applied) (Restored p) (check_health h g v pv true w)
  unfolding check_health status_of
  check_health-Ends w backed = cleared-Ends _ (
      catch-Ends (λ _. Backed p v applied) (Restored p) (Backed p v applied) (health h g) _ w
        (healthy_or_not (g.health_command == ""))
        (λ e w' b.
          give_up-Ends _ (some v) "HEALTH_CHECK_FAILED" e w' applied health_check_failed b refl refl
            refl))
    where
      healthy_or_not :
          (skip : Bool)
          → Ends
              (λ _. Backed p v applied)
              (Backed p v applied)
              ((if skip then pure tt else command h (λ w. health_check)) w)
      healthy_or_not true = backed
      healthy_or_not false = command-Ends (Backed p v applied) h (λ w. health_check) w backed

  finish-Ends :
      (actual : String) (w : World)
      → status_at v w.store ≡ some applied
      → Ends (λ _ _. Unit {0}) (Restored p) (finish h g v actual w)
  unfolding finish status_of
  finish-Ends actual w at =
      let (st, moved, _) =
        set_status-moves v "HEALTHY" applied healthy g.agent_id none w.now w.store at refl refl
          refl in
      >>=-Ends (λ _ _. Unit {0}) _ _ _ _ w (on_store-Ends _ _ _ w st moved tt)
        (λ _ w₁ _.
          >>=-Ends (λ _ _. Unit {0}) _ _ _ _ w₁ tt
            (λ _ w₂ _.
              >>=-Ends (λ _ _. Unit {0}) _ _ _ _ w₂ (heartbeat-Ends h g _ _ _ _ _ _ _ _ w₂ tt)
                (λ _ w₃ _. tt)))

  switch_from-Ends :
      (actual : String) (w : World)
      → w.active ≡ some p
      → status_at v w.store ≡ some staged
      → Ends (λ _ _. Unit {0}) (Restored p) (switch_from h g v pv actual true w)
  unfolding switch_from
  switch_from-Ends actual w active at =
      >>=-Ends (λ _. Backed p v staged) _ _ _ _ w (active, at)
        (λ _ w₁ b₁.
          >>=-Ends (λ _. Backed p v applied) _ _ _ _ w₁ (activate-Ends w₁ b₁)
            (λ _ w₂ b₂.
              >>=-Ends (λ _. Backed p v applied) _ _ _ _ w₂ (check_health-Ends w₂ b₂)
                (λ _ w₃ b₃. finish-Ends actual w₃ b₃.1)))

  pub switch-Ends :
      (actual : String) (w : World)
      → Before p v w
      → Ends (λ _ _. Unit {0}) (Restored p) (switch h g v pv actual w)
  unfolding switch
  switch-Ends actual w (active, at) =
      subst (λ had. Ends (λ _ _. Unit {0}) (Restored p) (switch_from h g v pv actual had w))
        (sym (ap is_some active)) (switch_from-Ends actual w active at)

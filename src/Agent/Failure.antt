-- ===== src/Agent/Failure.antt =====
-- What a failed `apply` of gateway/agent.py leaves behind.
use pq_migration_gateway.Prelude.{ℕ, ◌≡◌, refl, String, Option, some, subst, ◌∙◌}
use pq_migration_gateway.Result.{Error, Result, ok, err}
use pq_migration_gateway.Store.Tables.{staged}
use pq_migration_gateway.Store.Releases.History.{status_at}
use pq_migration_gateway.World.{World, Host, nginx_test}
use pq_migration_gateway.Agent.{
  GatewayAgent, test_candidate, check_release, verify_release, apply, refuse, observed_version,
  observed, record_failure,
}
use pq_migration_gateway.Agent.Keeps.{Keeps, >>=-Keeps, on_store-Keeps}
use pq_migration_gateway.Agent.Restore.{active_file, heartbeat-Keeps}
use pq_migration_gateway.Agent.Healthy.{at_heartbeat}
use pq_migration_gateway.Agent.Ends.{Ends, >>=-Ends, catch-Ends, command-Ends}
use pq_migration_gateway.Agent.Restores.{Restored, Before, heartbeat-Ends, switch-Ends}

module _ (h : Host) (g : GatewayAgent) (v : ℕ) (pv : Option ℕ) (p : String) where
  refuse-active : (state : String) (e : Error) → Keeps active_file (refuse h g v pv state e)
  unfolding record_failure
  refuse-active state e =
      >>=-Keeps active_file _ _
        (>>=-Keeps active_file _ _ (on_store-Keeps active_file _ (λ w st. refl))
          (λ _. on_store-Keeps active_file _ (λ w st. refl)))
        (λ _. heartbeat-Keeps h g _ _ _ _ _ _)

  refuse-Ends :
      (state : String) (e : Error) (w : World)
      → w.active ≡ some p
      → Ends (λ _. Restored p) (Restored p) (refuse h g v pv state e w)
  refuse-Ends state e w active = either_way _ (refuse-active state e w ∙ active)
    where
      either_way :
          (q : Result (Unit {0}) × World)
          → q.1.active ≡ some p
          → Ends (λ _. Restored p) (Restored p) q
      either_way (ok tt, w') r = r
      either_way (err x, w') r = r

  check_release-Ends :
      (w : World) → Before p v w → Ends (λ _. Before p v) (Restored p) (check_release h g v pv w)
  unfolding check_release
  check_release-Ends w before =
      catch-Ends (λ _. Before p v) (Restored p) (Before p v) _ _ w
        (either_way (verify_release h g (w.releases v)))
        (λ e w' b.
          >>=-Ends (λ _. Restored p) _ _ _ _ w' (refuse-Ends "VALIDATION_FAILED" e w' b.0)
            (λ _ w'' r. r))
    where
      either_way : (r : Result (String × String)) → Ends (λ _. Before p v) (Before p v) (r, w)
      either_way (ok c) = before
      either_way (err e) = before

  test_candidate-Ends :
      (conf : String) (w : World)
      → Before p v w
      → Ends (λ _. Before p v) (Restored p) (test_candidate h g v pv conf w)
  unfolding test_candidate
  test_candidate-Ends conf w before =
      >>=-Ends (λ _. Before p v) _ _ _ _ w before
        (λ _ w₁ b₁.
          catch-Ends (λ _. Before p v) (Restored p) (Before p v) _ _ w₁
            (command-Ends (Before p v) h (λ w. nginx_test w.temporary) w₁ b₁)
            (λ e w' b.
              >>=-Ends (λ _. Restored p) _ _ _ _ w'
                (>>=-Ends (λ _. Restored p) _ _ _ _ w' b.0
                  (λ _ w₂ r. refuse-Ends "NGINX_TEST_FAILED" e w₂ r))
                (λ _ w₃ r. r)))

apply-Ends :
    (h : Host) (g : GatewayAgent) (v : ℕ) (p : String) (w : World)
    → Before p v w
    → Ends (λ _ _. Unit {0}) (Restored p) (apply h g v w)
unfolding apply
apply-Ends h g v p w (active, at) =
    let pv = observed_version (observed w) in
    >>=-Ends (λ _. Before p v) _ _ _ _ w
      (heartbeat-Ends h g _ _ _ _ _ _ _ _ w (active, at_heartbeat v g.agent_id _ w.now w.store at))
      (λ _ w₁ b₁.
        >>=-Ends (λ _. Before p v) _ _ _ _ w₁ (check_release-Ends h g v pv p w₁ b₁)
          (λ c w₂ b₂.
            >>=-Ends (λ _. Before p v) _ _ _ _ w₂ (test_candidate-Ends h g v pv p c.0 w₂ b₂)
              (λ _ w₃ b₃. switch-Ends h g v pv p c.1 w₃ b₃)))

-- If `apply` raises on a STAGED version, whatever the commands of the host answer, the configuration
-- that was active before is active again, if there was one.
pub apply-restores :
    (h : Host) (g : GatewayAgent) (v : ℕ) (w : World) {p : String} {e : Error} {w' : World}
    → status_at v w.store ≡ some staged
    → w.active ≡ some p
    → apply h g v w ≡ (err e, w')
    → w'.active ≡ some p
apply-restores h g v w {p} at active failed =
    subst (Ends (λ _ _. Unit {0}) (Restored p)) failed (apply-Ends h g v p w (active, at))

-- ===== src/Agent/Reapply.antt =====
-- `apply` of gateway/agent.py on a version that is HEALTHY already.
use pq_migration_gateway.Prelude.{
  ℕ, ◌≡◌, refl, String, Bool, true, false, Option, none, some, arith, subst, sym, ap, is_some,
  if◌then◌else◌, ◌∷◌, List,
}
use pq_migration_gateway.Result.{Error, Result, ok, err}
use pq_migration_gateway.Exec.{catch}
use pq_migration_gateway.Store.Tables.{ReleaseStatus, applied, healthy, reload_failed}
use pq_migration_gateway.Store.Releases.{set_status, status_of, same_status, may_follow}
use pq_migration_gateway.Store.Releases.History.{status_at}
use pq_migration_gateway.Store.Metrics.{write_heartbeat}
use pq_migration_gateway.World.{World, Command, Host, Observed, nginx_test, nginx_reload}
use pq_migration_gateway.Agent.{
  GatewayAgent, on_store, command, activate, count_reload, reload_active, test_candidate,
  check_release, verify_release, switch, switch_from, apply, give_up, observed_version, observed,
  beat, record_failure,
}
use pq_migration_gateway.Agent.Keeps.{is_err}
use pq_migration_gateway.Agent.Restore.{at_counted}
use pq_migration_gateway.Agent.Healthy.{at_heartbeat}
use pq_migration_gateway.Agent.Ends.{Ends, >>=-Ends, catch-Ends, on_store-Ends}
use pq_migration_gateway.Agent.Restores.{heartbeat-Ends}
use pq_migration_gateway.Agent.Ends.{on_store-raises, command-returns}
use pq_migration_gateway.Store.Releases.Moves.{set_status-refuses}

-- The candidate is active, and nothing was undone.
pub record IsStuck (v : ℕ) (conf : String) (before : List Command) (w' : World) : Type 0 where
  pub active : w'.active ≡ some conf
  pub is_healthy : status_at v w'.store ≡ some healthy
  pub commands : w'.commands ≡ nginx_reload (some conf) ∷ nginx_test (some conf) ∷ before

-- The candidate was tested, and the version is healthy.
record Tested (v : ℕ) (conf : String) (before : List Command) (w : World) : Type 0 where
  temporary : w.temporary ≡ some conf
  is_healthy : status_at v w.store ≡ some healthy
  commands : w.commands ≡ nginx_test (some conf) ∷ before

abbrev Never : {A : Type 0} → A → World → Type 0
Never a w = false ≡ true

module _ (h : Host) (g : GatewayAgent) (v : ℕ) (pv : Option ℕ) (conf : String)
    (before : List Command) where
  refused :
      (name : String) (target : ReleaseStatus) (error : Option Error)
      (P : Unit {0} → World → Type 0) (Q : World → Type 0) (w : World)
      → status_of name ≡ some target
      → same_status healthy target ≡ false
      → may_follow healthy target ≡ false
      → status_at v w.store ≡ some healthy
      → Q w
      → Ends P Q (on_store (set_status v name g.agent_id error) w)
  refused name target error P Q w named other illegal at q =
      let (x, e) =
        set_status-refuses v name healthy target g.agent_id error w.now w.store at named other
          illegal in
      on_store-raises P Q _ w x e q

  -- The failure of an activation cannot be recorded, so that there is no rollback.
  give_up-IsStuck :
      (had : Bool) (e : Error) (w : World)
      → IsStuck v conf before w
      → Ends Never (IsStuck v conf before) (give_up h g v pv had none "RELOAD_FAILED" e w)
  unfolding record_failure status_of
  give_up-IsStuck had e w s =
      >>=-Ends Never _ _ _ _ w
        (>>=-Ends Never _ _ _ _ w
          (refused "RELOAD_FAILED" reload_failed (some e) Never _ w refl refl refl s.is_healthy s)
          (λ _ w' n. absurd (cc (n))))
        (λ _ w' n. absurd (cc (n)))

  activate-IsStuck :
      (had : Bool) (w : World)
      → ((log : List Command) → h.outcome log ≡ none)
      → Tested v conf before w
      → Ends Never (IsStuck v conf before) (activate h g v pv had w)
  unfolding activate count_reload status_of
  activate-IsStuck had w works t =
      let P : World → Type 0 = IsStuck v conf before in
      let w₁ : World = record w { active = w.temporary; temporary = none } in
      let w₂ : World = record w₁ { commands = nginx_reload w.temporary ∷ w.commands } in
      let stuck : P w₂ = record {
        active = t.temporary;
        is_healthy = t.is_healthy;
        commands = cc (t.temporary, t.commands);
      } in
      catch-Ends Never P P _ _ w
        (>>=-Ends (λ _ x. x ≡ w₁) _ _ _ _ w refl
          (λ _ x₁ e₁.
            >>=-Ends (λ _. P) _ _ _ _ x₁
              (subst (λ x. Ends (λ _. P) P (command h reload_active x)) (sym e₁)
                (command-returns _ _ h reload_active w₁ (works _) stuck))
              (λ _ x₂ s₂.
                >>=-Ends (λ _. P) _ _ _ _ x₂
                  (on_store-Ends _ _ _ x₂ _ refl (record {
                    active = s₂.active;
                    is_healthy = at_counted v _ _ _ _ _ x₂.store s₂.is_healthy;
                    commands = s₂.commands;
                  }))
                  (λ _ x₃ s₃.
                    refused "APPLIED" applied none Never P x₃ refl refl refl s₃.is_healthy s₃))))
        (λ e w' s. give_up-IsStuck had e w' s)

  switch-IsStuck :
      (actual : String) (w : World)
      → ((log : List Command) → h.outcome log ≡ none)
      → Tested v conf before w
      → Ends Never (IsStuck v conf before) (switch h g v pv actual w)
  unfolding switch switch_from
  switch-IsStuck actual w works t =
      let had = is_some w.active in
      >>=-Ends (λ _. Tested v conf before) _ _ _ _ w (backed had)
        (λ _ w₁ t₁.
          >>=-Ends Never _ _ _ _ w₁ (activate-IsStuck had w₁ works t₁) (λ _ w' n. absurd (cc (n))))
    where
      backed : (b : Bool) → Tested v conf before (if b then record w { previous = w.active } else w)
      backed true = record {
        temporary = t.temporary;
        is_healthy = t.is_healthy;
        commands = t.commands;
      }
      backed false = t

  test_candidate-Tested :
      (w : World)
      → ((log : List Command) → h.outcome log ≡ none)
      → status_at v w.store ≡ some healthy
      → w.commands ≡ before
      → Ends (λ _. Tested v conf before) (IsStuck v conf before) (test_candidate h g v pv conf w)
  unfolding test_candidate
  test_candidate-Tested w works at log =
      let tested : World → World = λ x. record x { temporary = some conf } in
      let t : Tested v conf before
          (record (tested w) { commands = nginx_test (some conf) ∷ w.commands }) =
        record {
          temporary = refl;
          is_healthy = at;
          commands = ap (λ l. nginx_test (some conf) ∷ l) log;
        } in
      >>=-Ends (λ _ x. x ≡ tested w) _ _ _ _ w refl
        (λ _ x e.
          catch-Ends (λ _. Tested v conf before) _ (λ _. false ≡ true) _ _ x
            (subst
              (λ y.
                Ends (λ _. Tested v conf before) (λ _. false ≡ true)
                  (command h (λ w. nginx_test w.temporary) y))
              (sym e) (command-returns _ _ h (λ w. nginx_test w.temporary) (tested w) (works _) t))
            (λ x' w' n. absurd (cc (n))))

check_release-returns :
    (h : Host) (g : GatewayAgent) (v : ℕ) (pv : Option ℕ) (w : World) {c : String × String}
    → verify_release h g (w.releases v) ≡ ok c
    → check_release h g v pv w ≡ (ok c, w)
unfolding check_release catch
check_release-returns h g v pv w e = ground (arith, e)

apply-IsStuck :
    (h : Host) (g : GatewayAgent) (v : ℕ) (w : World) {conf actual : String}
    → ((log : List Command) → h.outcome log ≡ none)
    → status_at v w.store ≡ some healthy
    → verify_release h g (w.releases v) ≡ ok (conf, actual)
    → Ends Never (IsStuck v conf w.commands) (apply h g v w)
unfolding apply
apply-IsStuck h g v w {conf} {actual} works at verified =
    let pv = observed_version (observed w) in
    let w₀ : World = record w {
      store =
          write_heartbeat g.agent_id (beat h g pv (some v) "APPLYING" "unknown" none none w) w.now
            w.store;
    } in
    let Q : World → Type 0 = IsStuck v conf w.commands in
    >>=-Ends (λ _ x. x ≡ w₀) _ Q _ _ w (heartbeat-Ends h g _ _ _ _ _ _ _ _ w refl)
      (λ _ w₁ e₁.
        >>=-Ends (λ c x. (c ≡ (conf, actual)) × (x ≡ w₀)) _ Q _ _ w₁
          (subst (λ x. Ends (λ c x. (c ≡ (conf, actual)) × (x ≡ w₀)) Q (check_release h g v pv x))
            (sym e₁)
            (subst (Ends (λ c x. (c ≡ (conf, actual)) × (x ≡ w₀)) Q)
              (sym (check_release-returns h g v pv w₀ verified)) (refl, refl)))
          (λ c w₂ (is_c, e₂).
            >>=-Ends (λ _. Tested v conf w.commands) Never Q _ _ w₂
              (subst (λ u. Ends (λ _. Tested v conf w.commands) Q (test_candidate h g v pv u w₂))
                (sym (ap (λ q. q.0) is_c))
                (test_candidate-Tested h g v pv conf w.commands w₂ works
                  (subst (λ x. status_at v x.store ≡ some healthy) (sym e₂)
                    (at_heartbeat v g.agent_id _ w.now w.store at))
                  (ap (λ x. x.commands) e₂)))
              (λ _ w₃ t. switch-IsStuck h g v pv conf w.commands c.1 w₃ works t)))

-- `apply` on a version that is HEALTHY already, with an intact release and commands that all succeed,
-- raises: the configuration of the version is active and was reloaded, the version stays HEALTHY,
-- and nothing is rolled back, whatever was active before.
pub apply-again :
    (h : Host) (g : GatewayAgent) (v : ℕ) (w : World) {conf actual : String}
    → ((log : List Command) → h.outcome log ≡ none)
    → status_at v w.store ≡ some healthy
    → verify_release h g (w.releases v) ≡ ok (conf, actual)
    → (is_err (apply h g v w).0 ≡ true) × IsStuck v conf w.commands (apply h g v w).1
apply-again h g v w works at verified =
    raised _ (apply h g v w) (apply-IsStuck h g v w works at verified)
  where
    raised :
        (Q : World → Type 0) (p : Result Observed × World)
        → Ends Never Q p
        → (is_err p.0 ≡ true) × Q p.1
    raised Q (ok o, w') n = cc
    raised Q (err e, w') q = (refl, q)

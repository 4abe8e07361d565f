-- ===== src/Agent/Healthy.antt =====
-- What a successful `apply` of gateway/agent.py has done.
use pq_migration_gateway.Prelude.{
  ℕ, ◌≡◌, refl, String, Bool, Option, none, some, arith, inl, inr, subst, ap, ◌∙◌, is_some,
}
use pq_migration_gateway.Result.{Error, Result, ok, Result-cases, ok-injective}
use pq_migration_gateway.Exec.{raise, ◌>>=◌, ◌>>◌, catch}
use pq_migration_gateway.Store.Tables.{Store, ReleaseStatus, healthy}
use pq_migration_gateway.Store.Releases.{find_version, set_status, status_of}
use pq_migration_gateway.Store.Releases.History.{status_at}
use pq_migration_gateway.Store.Releases.Moves.{set_status-enters}
use pq_migration_gateway.Store.Metrics.{heartbeat_agent, Heartbeat, write_heartbeat}
use pq_migration_gateway.Store.Metrics.Keeps.{write_heartbeat-config_versions}
use pq_migration_gateway.World.{World, Host, Observed, holds}
use pq_migration_gateway.Agent.{
  GatewayAgent, on_store, command, health, heartbeat, finish, healthy_now, check_health, activate,
  count_reload, test_candidate, check_release, verify_release, switch, switch_from, apply, beat,
  give_up, refuse, remove_temporary, observed_version, observed,
}
use pq_migration_gateway.Agent.Keeps.{Fails, raise-Fails, >>=-Fails, >>=-eq-ok, catch-eq-ok}
use pq_migration_gateway.Agent.Restore.{give_up-Fails}
use pq_migration_gateway.Agent.Verified.{IsVerified, verify_release-IsVerified}

pub at_heartbeat :
    (v : ℕ) (id : String) (b : Heartbeat) (now : ℕ) (st : Store) {s : ReleaseStatus}
    → status_at v st ≡ some s
    → status_at v (write_heartbeat id b now st) ≡ some s
unfolding find_version
at_heartbeat v id b now st h = rw (write_heartbeat-config_versions id b now st) h

-- The state after a success of `apply`.
pub record IsApplied (g : GatewayAgent) (v : ℕ) (conf actual : String) (o : Observed) (w' : World)
    : Type 0 where
  pub active : w'.active ≡ some conf
  pub observed : w'.observed ≡ holds o
  pub checksum : o.checksum ≡ some actual
  pub version : o.version ≡ some v
  pub is_healthy : status_at v w'.store ≡ some healthy

module _ (h : Host) (g : GatewayAgent) where
  -- A heartbeat always succeeds, and only writes to the database.
  pub heartbeat-runs :
      (current desired : Option ℕ) (status health : String) (reload : Option String)
      (e : Option Error) (w : World)
      → heartbeat h g current desired status health reload e w ≡ (
        ok tt,
        record w {
          store =
              write_heartbeat g.agent_id
                (beat h g current desired status health reload e w)
                w.now
                w.store;
        },
      )
  unfolding heartbeat on_store heartbeat_agent
  heartbeat-runs current desired status health reload e w = refl

  finish-IsApplied :
      (v : ℕ) (conf actual : String) (w : World) {o : Observed} {w' : World}
      → w.active ≡ some conf
      → finish h g v actual w ≡ (ok o, w')
      → IsApplied g v conf actual o w'
  unfolding finish on_store ◌>>=◌ status_of
  finish-IsApplied v conf actual w {o} {w'} active fin =
      elim (Result-cases (set_status v "HEALTHY" g.agent_id none w.now w.store)) [
        | inr (x, e) ↦ absurd (ground (arith, e, fin))
        | inl (st, e) ↦
            let at = set_status-enters v "HEALTHY" healthy g.agent_id none w.now w.store refl e in
            let seen : World = record w {
              store = st;
              observed = holds (healthy_now g v actual w);
            } in
            let b = beat h g (some v) (some v) "HEALTHY" "healthy" (some "reload-ok") none seen in
            let sent =
              heartbeat-runs (some v) (some v) "HEALTHY" "healthy" (some "reload-ok") none seen in
            let after : World = record seen { store = write_heartbeat g.agent_id b w.now st } in
            let ending : Result Observed × World = (ok (healthy_now g v actual w), after) in
            let ends : ending ≡ (ok o, w') = ground (arith, e, sent, fin) in
            let done : IsApplied g v conf actual (healthy_now g v actual w) after = record {
              active = active;
              observed = refl;
              checksum = refl;
              version = refl;
              is_healthy = at_heartbeat v g.agent_id b w.now st at;
            } in
            subst (λ x. IsApplied g v conf actual x w') (ok-injective (ap (λ p. p.0) ends))
              (subst (λ x. IsApplied g v conf actual (healthy_now g v actual w) x)
                (ap (λ p. p.1) ends) done)
      ]

  activate-active :
      (v : ℕ) (pv : Option ℕ) (had : Bool) (w : World) {w' : World}
      → activate h g v pv had w ≡ (ok tt, w')
      → w'.active ≡ w.temporary
  unfolding activate command count_reload on_store ◌>>=◌
  activate-active v pv had w {w'} e =
      let done = catch-eq-ok _ _ w (give_up-Fails h g v pv had none "RELOAD_FAILED") e in
      ground (arith, done)

  check_health-active :
      (v : ℕ) (pv : Option ℕ) (had : Bool) (w : World) {w' : World}
      → check_health h g v pv had w ≡ (ok tt, w')
      → w'.active ≡ w.active
  unfolding check_health command
  check_health-active v pv had w {w'} e =
      let tried = catch (health h g) (give_up h g v pv had (some v) "HEALTH_CHECK_FAILED") in
      let went : tried w ≡ (ok tt, (tried w).1) = ground (arith, e) in
      let done =
        catch-eq-ok _ _ w (give_up-Fails h g v pv had (some v) "HEALTH_CHECK_FAILED") went in
      let same : (tried w).1.active ≡ w.active = ground (arith, done) in ground (arith, e, same)

  refused-Fails :
      (v : ℕ) (pv : Option ℕ) (e : Error)
      → Fails {A = Unit {0}} (remove_temporary >> refuse h g v pv "NGINX_TEST_FAILED" e >> raise e)
  refused-Fails v pv e = >>=-Fails _ _ (λ _. raise-Fails (Unit {0}) e)

  test_candidate-temporary :
      (v : ℕ) (pv : Option ℕ) (conf : String) (w : World) {w' : World}
      → test_candidate h g v pv conf w ≡ (ok tt, w')
      → w'.temporary ≡ some conf
  unfolding test_candidate command ◌>>=◌
  test_candidate-temporary v pv conf w e =
      let done = catch-eq-ok _ _ (record w { temporary = some conf }) (refused-Fails v pv) e in
      ground (arith, done)

  check_release-eq-ok :
      (v : ℕ) (pv : Option ℕ) (w : World) {c : String × String} {w' : World}
      → check_release h g v pv w ≡ (ok c, w')
      → verify_release h g (w.releases v) ≡ ok c
  unfolding check_release
  check_release-eq-ok v pv w e =
      let done = catch-eq-ok _ _ w (λ x. >>=-Fails _ _ (λ _. raise-Fails (String × String) x)) e in
      ground (arith, done)

  switch-IsApplied :
      (v : ℕ) (pv : Option ℕ) (conf actual : String) (w : World) {o : Observed} {w' : World}
      → w.temporary ≡ some conf
      → switch h g v pv actual w ≡ (ok o, w')
      → IsApplied g v conf actual o w'
  unfolding switch switch_from
  switch-IsApplied v pv conf actual w candidate e =
      let had = is_some w.active in
      let (_, w₁, e₁, r₁) = >>=-eq-ok _ _ w e in
      let (_, w₂, e₂, r₂) = >>=-eq-ok _ _ w₁ r₁ in
      let (_, w₃, e₃, r₃) = >>=-eq-ok _ _ w₂ r₂ in
      let kept : w₁.temporary ≡ w.temporary = ground (arith, e₁) in
      finish-IsApplied v conf actual w₃
        (check_health-active v pv had w₂ e₃ ∙ activate-active v pv had w₁ e₂ ∙ kept ∙ candidate) r₃

-- If `apply` returns, the digest of the release was the one that its manifest records, and if a key is
-- configured, the manifest has the signature of its other fields under that key; the nginx.conf of the
-- release is now the active configuration, observed.json holds the result, with the version and the
-- digest, and the version is HEALTHY.
pub apply-IsApplied :
    (h : Host) (g : GatewayAgent) (v : ℕ) (w : World) {o : Observed} {w' : World}
    → apply h g v w ≡ (ok o, w')
    → (conf actual : String) × IsVerified h g (w.releases v) conf actual
      × IsApplied g v conf actual o w'
unfolding apply
apply-IsApplied h g v w e =
    let (_, w₁, e₁, r₁) = >>=-eq-ok _ _ w e in
    let ((conf, actual), w₂, e₂, r₂) = >>=-eq-ok _ _ w₁ r₁ in
    let (_, w₃, e₃, r₃) = >>=-eq-ok _ _ w₂ r₂ in
    let sent =
      heartbeat-runs h g (observed_version (observed w)) (some v) "APPLYING" "unknown" none none
        w in
    let kept : w₁.releases ≡ w.releases = ground (arith, e₁, sent) in
    let ready = check_release-eq-ok h g v _ w₁ e₂ in
    (
      conf,
      actual,
      verify_release-IsVerified h g (w.releases v) conf actual
          (subst (λ f. verify_release h g (f v) ≡ ok (conf, actual)) kept ready),
      switch-IsApplied h g v _ conf actual w₃ (test_candidate-temporary h g v _ conf w₂ e₃) r₃,
    )

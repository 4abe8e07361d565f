-- ===== src/Migration/Settled.antt =====
-- What a promotion or a completion by `migrate` of manager/scan_orchestrator.py leaves behind.
use pq_migration_gateway.Prelude.{
  ◌≡◌, refl, subst, ℕ, String, true, false, [], ◌∷◌, Option, none, some, ◌==◌, ◌⊎◌, inl, inr, arith,
  Bool-cases, eq_refl, is_some,
}
use pq_migration_gateway.Result.{ok, ok-injective, require-eq-ok}
use pq_migration_gateway.Exec.Ends.{>>=-Ends}
use pq_migration_gateway.Json.{Fields}
use pq_migration_gateway.Store.Rows.{find_row-upsert_self, from_row}
use pq_migration_gateway.Store.Tables.{MigrationState, strict, verified, PlanRow, Store}
use pq_migration_gateway.Store.Releases.{audit_conn, audit_error}
use pq_migration_gateway.Store.Scans.{
  has_plan, find_plan, get_migration_plan, change_plan, find_asset, upsert_migration_plan,
}
use pq_migration_gateway.StateMachine.{get_state}
use pq_migration_gateway.StateMachine.Paths.{state_at}
use pq_migration_gateway.World.{World, Host}
use pq_migration_gateway.Agent.{on_store}
use pq_migration_gateway.Discovery.Lists.{AssetReport, get_crypto_asset}
use pq_migration_gateway.Migration.Leaves.{
  Leaves, weaken, skip, on_store-Leaves, look, advance-Leaves,
}
use pq_migration_gateway.Migration.Assess.{Python, is_state, advance}
use pq_migration_gateway.Migration.Promote.{Verified}
use pq_migration_gateway.Migration.Plans.{action_of, promoted_plan, completed_plan}
use pq_migration_gateway.Migration.Run.{requested_plan, promote, complete, migrate_plan, migrate}

-- The service is in a state, and the plan has a status.
abbrev pub Settled : String → String → MigrationState → String → Store → Type 0
Settled sid plan_id m status st =
    (is_state m (state_at sid st) ≡ true)
    × (q : PlanRow) × (find_plan plan_id st ≡ some q)
    × (q.status ≡ status)

-- The status of the row that an upsert leaves.
from_row-status :
    (p : PlanRow) (o : Option PlanRow) → (from_row p (change_plan p) o).status ≡ p.status
from_row-status p none = refl
from_row-status p (some q) = refl

upsert_migration_plan-Settled :
    (sid : String) (m : MigrationState) (p : PlanRow) (st st' : Store)
    → is_state m (state_at sid st) ≡ true
    → upsert_migration_plan p st ≡ ok st'
    → Settled sid p.plan_id m p.status st'
unfolding upsert_migration_plan audit_conn audit_error get_state find_plan
upsert_migration_plan-Settled sid m p st st' there e =
    elim (Bool-cases (is_some (find_asset p.asset_id st))) [
      | inr lost ↦ absurd (ground (arith, lost))
      | inl kept ↦ subst (Settled sid p.plan_id m p.status) (ok-injective (rw kept at e)) (
        there,
        _,
        find_row-upsert_self (has_plan p.plan_id) (change_plan p) p (λ r same. same)
            (eq_refl p.plan_id) st.migration_plans,
        from_row-status p (find_plan p.plan_id st),
      )
    ]

-- A plan that is stored after the service has moved.
pub store_plan-Leaves :
    (sid plan_id status : String) (m : MigrationState) (row : ℕ → PlanRow) (w : World)
    → is_state m (state_at sid w.store) ≡ true
    → ((now : ℕ) → ((row now).plan_id ≡ plan_id) × ((row now).status ≡ status))
    → Leaves
        (Settled sid plan_id m status)
        (on_store (λ now st. upsert_migration_plan (row now) st) w)
store_plan-Leaves sid plan_id status m row w there named =
    on_store-Leaves _ (λ now st. upsert_migration_plan (row now) st) w
      (λ st' e.
        subst (λ id. Settled sid id m status st') (named w.now).0
          (subst (λ x. Settled sid (row w.now).plan_id m x st') (named w.now).1
            (upsert_migration_plan-Settled sid m (row w.now) w.store st' there e)))

module _ (h : Host) (py : Python) (environment : String) (actor : String) where
  promote-Leaves :
      (p : PlanRow) (v : Verified) (w : World)
      → Leaves
          (Settled p.service_id p.plan_id strict "STRICT_STAGED")
          (promote h py environment actor p v w)
  unfolding promote
  promote-Leaves p v w = skip _ _ _ w (λ _ w₁. skip _ _ _ w₁ (λ _ w₂. skip _ _ _ w₂ (λ version w₃.
      >>=-Ends _ _ _ (advance p.service_id _ (strict ∷ [])) _ w₃
        (advance-Leaves p.service_id _ strict w₃)
        (λ _ w₄ there.
          store_plan-Leaves p.service_id p.plan_id "STRICT_STAGED" strict
            (promoted_plan py actor p v version) w₄ there (λ _. (refl, refl))))))

  complete-Leaves :
      (p : PlanRow) (body : Fields) (version : ℕ) (w : World)
      → Leaves
          (Settled p.service_id p.plan_id verified "VERIFIED")
          (complete h py environment actor p body version w)
  unfolding complete
  complete-Leaves p body version w = skip _ _ _ w (λ _ w₁.
      >>=-Ends _ _ _ (advance p.service_id _ (verified ∷ [])) _ w₁
        (advance-Leaves p.service_id _ verified w₁)
        (λ _ w₂ there. look _ _ _ w₂ (λ plan _.
          store_plan-Leaves p.service_id p.plan_id "VERIFIED" verified
            (completed_plan actor p _ plan) w₂ there (λ _. (refl, refl)))))

  -- What a request that is no creation leaves, for the plan that it names.
  pub record Done (asset_id : String) (asset : AssetReport) (body : Fields) (before after : Store)
      : Type 0 where
    pub plan : PlanRow
    pub found :
        get_migration_plan (requested_plan h py environment actor asset body) before ≡ ok plan
    pub own : (plan.asset_id == asset_id) ≡ true
    pub settled :
        ((action_of h body == "verify") ≡ true)
          × Settled plan.service_id plan.plan_id strict "STRICT_STAGED" after
        ⊎ ((action_of h body == "complete") ≡ true)
          × Settled plan.service_id plan.plan_id verified "VERIFIED" after

  migrate_plan-Done :
      (asset_id : String) (asset : AssetReport) (body : Fields) (w : World)
      → Leaves
          (Done asset_id asset body w.store)
          (migrate_plan h py environment actor (action_of h body) asset_id asset body w)
  unfolding migrate_plan
  migrate_plan-Done asset_id asset body w = look _ _ _ w (λ _ _. look _ _ _ w (λ p found.
      look _ _ _ w (λ u own. elim (Bool-cases (action_of h body == "verify")) [
        | inl is_verify ↦ rw is_verify (
            look _ _ _ w (λ v _.
              weaken (Settled p.service_id p.plan_id strict "STRICT_STAGED")
                (Done asset_id asset body w.store) (promote h py environment actor p v w)
                (λ st done. record {
                  plan = p;
                  found = found;
                  own = require-eq-ok _ _ u own;
                  settled = inl (is_verify, done);
                })
                (promote-Leaves p v w)))
        | inr not_verify ↦ rw not_verify (elim (Bool-cases (action_of h body == "complete")) [
          | inl is_complete ↦ rw is_complete (
              look _ _ _ w (λ version _.
                weaken (Settled p.service_id p.plan_id verified "VERIFIED")
                  (Done asset_id asset body w.store)
                  (complete h py environment actor p body version w)
                  (λ st done. record {
                    plan = p;
                    found = found;
                    own = require-eq-ok _ _ u own;
                    settled = inr (is_complete, done);
                  })
                  (complete-Leaves p body version w)))
          | inr not_complete ↦ rw not_complete tt
        ])
      ])))

  -- If a request of another action than create returns, it named a plan of the asset; then the service
  -- is STRICT and the plan STRICT_STAGED after verify, and both are VERIFIED after complete.
  pub migrate-Done :
      (asset_id : String) (body : Fields) (w w' : World)
      → (action_of h body == "create") ≡ false
      → migrate h py environment actor asset_id body w ≡ (ok tt, w')
      → (asset : AssetReport) × (get_crypto_asset asset_id 1000 w.store ≡ ok asset)
        × Done asset_id asset body w.store w'.store
  unfolding migrate
  migrate-Done asset_id body w w' other run =
      subst
        (Leaves (λ st.
          (asset : AssetReport) × (get_crypto_asset asset_id 1000 w.store ≡ ok asset)
          × Done asset_id asset body w.store st))
        run
        (look _ _ _ w (λ asset found. rw other (
          weaken (Done asset_id asset body w.store)
            (λ st.
              (x : AssetReport) × (get_crypto_asset asset_id 1000 w.store ≡ ok x)
              × Done asset_id x body w.store st)
            (migrate_plan h py environment actor (action_of h body) asset_id asset body w)
            (λ st done. (asset, found, done)) (migrate_plan-Done asset_id asset body w))))

-- ===== src/Migration/Created.antt =====
-- The action `create` of `migrate` of manager/scan_orchestrator.py.
use pq_migration_gateway.Prelude.{
  ◌≡◌, refl, subst, String, true, false, [], ◌∷◌, Option, ◌==◌, is_some, not-true, sym, ◌∙◌,
}
use pq_migration_gateway.Result.{ok, ok-injective, require-eq-ok}
use pq_migration_gateway.Exec.Ends.{>>=-Ends}
use pq_migration_gateway.Json.{Json, Fields, null, bool, num, real, str, arr, obj, get, get_or}
use pq_migration_gateway.Store.Tables.{compatibility, Store}
use pq_migration_gateway.StateMachine.{get_state}
use pq_migration_gateway.World.{World, Host}
use pq_migration_gateway.Discovery.Lists.{AssetReport, get_crypto_asset}
use pq_migration_gateway.Migration.Service.{as_section, compatibility_service}
use pq_migration_gateway.Migration.Assess.{Python, advance}
use pq_migration_gateway.Migration.Leaves.{Leaves, weaken, skip, look, advance-Leaves}
use pq_migration_gateway.Migration.Settled.{Settled, store_plan-Leaves}
use pq_migration_gateway.Migration.Plans.{
  action_of, plan_key, created_plan, bound_id, has_state, text_id,
}
use pq_migration_gateway.Migration.Run.{create_plan, migrate_create, migrate}

module _ (h : Host) (py : Python) (environment : String) (actor : String) where
  create_plan-Leaves :
      (asset : AssetReport) (sid : String) (service : Fields) (assessment : String) (w : World)
      → Leaves
          (Settled sid (plan_key h asset.asset.asset_id sid) compatibility "COMPATIBILITY_STAGED")
          (create_plan h py environment actor asset sid service assessment w)
  unfolding create_plan
  create_plan-Leaves asset sid service assessment w = skip _ _ _ w (λ _ w₁. skip _ _ _ w₁ (λ _ w₂.
      skip _ _ _ w₂ (λ _ w₃. skip _ _ _ w₃ (λ _ w₄. skip _ _ _ w₄ (λ _ w₅.
        skip _ _ _ w₅ (λ version w₆.
          >>=-Ends _ _ _ (advance sid _ (compatibility ∷ [])) _ w₆
            (advance-Leaves sid _ compatibility w₆)
            (λ _ w₇ there.
              store_plan-Leaves sid (plan_key h asset.asset.asset_id sid) "COMPATIBILITY_STAGED"
                compatibility (created_plan h actor asset sid assessment version) w₇ there
                (λ _. (refl, refl)))))))))

  -- What a request to create a migration has made: its service was not known before, and now it is in
  -- the state COMPATIBILITY, with a plan whose compatibility release is staged.
  pub record Created (asset_id : String) (body : Fields) (before after : Store) : Type 0 where
    pub given : Fields
    pub spec : Fields
    pub sid : String
    pub asset : AssetReport
    pub found : get_crypto_asset asset_id 1000 before ≡ ok asset
    pub requested : as_section (get_or "service" (obj Fields.end) body) ≡ ok given
    pub made : compatibility_service h.python_str given ≡ ok spec
    pub named : get "id" spec ≡ str sid
    pub fresh : is_some (get_state sid before) ≡ false
    pub settled :
        Settled sid (plan_key h asset.asset.asset_id sid) compatibility "COMPATIBILITY_STAGED" after

  text_id-eq : (v : Json) (sid : String) → text_id v ≡ ok sid → v ≡ str sid
  text_id-eq (str s) sid e = subst (λ x. str s ≡ str x) (ok-injective e) refl
  text_id-eq null sid e = cc
  text_id-eq (bool _) sid e = cc
  text_id-eq (num _) sid e = cc
  text_id-eq (real _) sid e = cc
  text_id-eq (arr _) sid e = cc
  text_id-eq (obj _) sid e = cc

  -- The lookup of a text is the lookup of the service.
  pub has_state-eq :
      (v : Json) (sid : String) (sql : Option String) (st : Store)
      → v ≡ str sid
      → bound_id py v ≡ ok sql
      → has_state sql st ≡ is_some (get_state sid st)
  has_state-eq v sid sql st named e =
      subst (λ o. has_state o st ≡ is_some (get_state sid st))
        (ok-injective (subst (λ u. bound_id py u ≡ ok sql) named e)) refl

  migrate_create-Created :
      (asset_id : String) (asset : AssetReport) (body : Fields) (w : World)
      → get_crypto_asset asset_id 1000 w.store ≡ ok asset
      → Leaves (Created asset_id body w.store) (migrate_create h py environment actor asset body w)
  unfolding migrate_create
  migrate_create-Created asset_id asset body w found = look _ _ _ w (λ given requested.
      look _ _ _ w (λ spec made. look _ _ _ w (λ sql bound. look _ _ _ w (λ known e.
        look _ _ _ w (λ u new. skip _ _ _ w (λ assessment w₁. look _ _ _ w₁ (λ sid named.
          weaken
            (Settled sid (plan_key h asset.asset.asset_id sid) compatibility "COMPATIBILITY_STAGED")
            (Created asset_id body w.store)
            (create_plan h py environment actor asset sid spec assessment w₁)
            (λ st settled. record {
              given = given;
              spec = spec;
              sid = sid;
              asset = asset;
              found = found;
              requested = requested;
              made = made;
              named = text_id-eq _ sid named;
              fresh =
                  sym (has_state-eq (get "id" spec) sid sql w.store (text_id-eq _ sid named) bound)
                  ∙ ok-injective e
                  ∙ not-true known (require-eq-ok _ _ u new);
              settled = settled;
            })
            (create_plan-Leaves asset sid spec assessment w₁))))))))

  -- If a request to create a migration returns, its service was not known before; then the service is
  -- in the state COMPATIBILITY, and the plan of the asset and the service is COMPATIBILITY_STAGED.
  pub migrate-Created :
      (asset_id : String) (body : Fields) (w : World)
      → (action_of h body == "create") ≡ true
      → Leaves (Created asset_id body w.store) (migrate h py environment actor asset_id body w)
  unfolding migrate
  migrate-Created asset_id body w create =
      look _ _ _ w (λ asset found. rw create (migrate_create-Created asset_id asset body w found))

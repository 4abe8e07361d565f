-- ===== src/Migration/Gate.antt =====
-- What `migrate` of manager/scan_orchestrator.py requires of a service before it is promoted.
use pq_migration_gateway.Prelude.{
  ◌≡◌, refl, suc, subst, eqb, Bool-cases, not-true, ℕ, String, true, false, Option, none, some,
  ◌==◌, ◌⊎◌, inl, inr, arith,
}
use pq_migration_gateway.Result.{ok, require-then, require-eq-ok, ok-injective, >>=-eq-ok}
use pq_migration_gateway.Exec.Ends.{Unless, query-Unless}
use pq_migration_gateway.Json.{Json, Fields, null, bool, num, arr, str, real, get, get_or, obj}
use pq_migration_gateway.Store.Tables.{healthy, compatibility, strict, PlanRow, Store}
use pq_migration_gateway.Store.Releases.{VersionView, get_version, same_status}
use pq_migration_gateway.Prelude.Text.{strip}
use pq_migration_gateway.Store.Inventory.{text}
use pq_migration_gateway.StateMachine.{get_state, source_of}
use pq_migration_gateway.World.{World, Host}
use pq_migration_gateway.Migration.Assess.{Float, Python, is_state}
use pq_migration_gateway.Store.Scans.{get_migration_plan}
use pq_migration_gateway.Discovery.Lists.{AssetReport, get_crypto_asset}
use pq_migration_gateway.Migration.Plans.{action_of}
use pq_migration_gateway.Migration.Run.{requested_plan, migrate_plan, migrate}
use pq_migration_gateway.Migration.Service.{as_section}
use pq_migration_gateway.Migration.Hybrid.{as_section-eq}
use pq_migration_gateway.Migration.Rates.{IsWithin, rate_refused-IsWithin}
use pq_migration_gateway.Migration.Promote.{
  Verified, is_true, int_column, maximum_rate, check_verify, strict_column, check_complete,
}

module _ (h : Host) (py : Python) where
  -- What `verify` requires of a plan, of the request and of the database: the service is in the state
  -- COMPATIBILITY, its compatibility release is HEALTHY, the request says that the verification passed
  -- and what its result was, and the rate of fallbacks is at least 0 and at most the gate of the plan,
  -- unless one of them is a NaN.
  pub record Promotable (p : PlanRow) (body : Fields) (st : Store) : Type 0 where
    pub version : ℕ
    pub release : VersionView
    pub fields : Fields
    pub rate : Float
    pub maximum : Float
    pub at_compatibility : is_state compatibility (source_of (get_state p.service_id st)) ≡ true
    pub staged : p.compatibility_version ≡ some version
    pub released : get_version version st ≡ ok release
    pub is_healthy : same_status release.row.status healthy ≡ true
    pub passed : get "passed" body ≡ bool true
    pub verified :
        (strip (text h.python_str (get_or "verification_result" (str "") body)) == "") ≡ false
    pub rated : py.as_float (get_or "fallback_rate" (real "1.0") body) ≡ ok rate
    pub planned : p.plan ≡ obj fields
    pub gated : maximum_rate h py fields ≡ ok maximum
    pub within : IsWithin rate maximum

  is_true-eq : (v : Json) → is_true v ≡ true → v ≡ bool true
  is_true-eq (bool true) e = refl
  is_true-eq (bool false) e = cc
  is_true-eq null e = cc
  is_true-eq (num _) e = cc
  is_true-eq (real _) e = cc
  is_true-eq (str _) e = cc
  is_true-eq (arr _) e = cc
  is_true-eq (obj _) e = cc

  int_column-eq : (c : Option ℕ) (v : ℕ) → int_column c ≡ ok v → c ≡ some v
  int_column-eq none v e = cc
  int_column-eq (some u) v e = cc

  check_verify-Promotable :
      (p : PlanRow) (body : Fields) (st : Store) (v : Verified)
      → check_verify h py p body st ≡ ok v
      → Promotable p body st
  unfolding check_verify
  check_verify-Promotable p body st v e₀ =
      let (state, e₁) = require-then _ _ _ v e₀ in
      let (version, column, e₂) = >>=-eq-ok (int_column p.compatibility_version) _ e₁ in
      let (release, found, e₃) = >>=-eq-ok (get_version version st) _ e₂ in
      let (good, e₄) = require-then _ _ _ v e₃ in
      let (passed, e₅) = require-then _ _ _ v e₄ in
      let (named, e₆) = require-then _ _ _ v e₅ in
      let (rate, rated, e₇) = >>=-eq-ok (py.as_float _) _ e₆ in
      let (fields, planned, e₈) = >>=-eq-ok (as_section p.plan) _ e₇ in
      let (maximum, gated, e₉) = >>=-eq-ok (maximum_rate h py fields) _ e₈ in
      let (within, e₁₀) = require-then _ _ _ v e₉ in
      record {
        version = version;
        release = release;
        fields = fields;
        rate = rate;
        maximum = maximum;
        at_compatibility = state;
        staged = int_column-eq _ version column;
        released = found;
        is_healthy = good;
        passed = is_true-eq _ passed;
        verified = not-true _ named;
        rated = rated;
        planned = as_section-eq _ fields planned;
        gated = gated;
        within = rate_refused-IsWithin rate maximum (not-true _ within);
      }

-- What `complete` requires: the service is in the state STRICT, and its strict release is HEALTHY.
pub record Completable (p : PlanRow) (st : Store) : Type 0 where
  pub version : ℕ
  pub release : VersionView
  pub at_strict : is_state strict (source_of (get_state p.service_id st)) ≡ true
  pub staged : p.strict_version ≡ some version
  pub numbered : eqb version 0 ≡ false
  pub released : get_version version st ≡ ok release
  pub is_healthy : same_status release.row.status healthy ≡ true

suc-nonzero : (u : ℕ) → eqb (suc u) 0 ≡ false
suc-nonzero u = ground arith

strict_column-eq :
    (c : Option ℕ) (v : ℕ) → strict_column c ≡ ok v → (c ≡ some v) × (eqb v 0 ≡ false)
strict_column-eq none v e = cc
strict_column-eq (some ℕ.zero) v e = cc
strict_column-eq (some (suc u)) v e =
    subst (λ x. (some (suc u) ≡ some x) × (eqb x 0 ≡ false)) (ok-injective e) (refl, suc-nonzero u)

check_complete-Completable :
    (p : PlanRow) (st : Store) (v : ℕ) → check_complete p st ≡ ok v → Completable p st
unfolding check_complete
check_complete-Completable p st v e₀ =
    let (state, e₁) = require-then _ _ _ v e₀ in
    let (version, column, e₂) = >>=-eq-ok (strict_column p.strict_version) _ e₁ in
    let (release, found, e₃) = >>=-eq-ok (get_version version st) _ e₂ in
    let (good, e₄) = require-then _ _ _ v e₃ in
    let (staged, numbered) = strict_column-eq p.strict_version version column in
    record {
      version = version;
      release = release;
      at_strict = state;
      staged = staged;
      numbered = numbered;
      released = found;
      is_healthy = good;
    }

module _ (h : Host) (py : Python) (environment : String) (actor : String) where
  -- The plan that a request names is a plan of this asset, and the request may promote it or complete it.
  pub record Gate (asset_id : String) (asset : AssetReport) (body : Fields) (action : String)
      (st : Store) : Type 0 where
    pub plan : PlanRow
    pub found : get_migration_plan (requested_plan h py environment actor asset body) st ≡ ok plan
    pub own : (plan.asset_id == asset_id) ≡ true
    pub may :
        ((action == "verify") ≡ true) × Promotable h py plan body st
        ⊎ ((action == "complete") ≡ true) × Completable plan st

  migrate_plan-Gate :
      (action asset_id : String) (asset : AssetReport) (body : Fields) (w : World)
      → Unless
          (Gate asset_id asset body action w.store)
          w
          (migrate_plan h py environment actor action asset_id asset body w)
  unfolding migrate_plan
  migrate_plan-Gate action asset_id asset body w = query-Unless _ _ _ w (λ _ _.
      query-Unless _ _ _ w (λ p found. query-Unless _ _ _ w (λ u own.
        elim (Bool-cases (action == "verify")) [
          | inl is_verify ↦ rw is_verify (
              query-Unless _ _ _ w (λ v checked. inr (record {
                plan = p;
                found = found;
                own = require-eq-ok _ _ u own;
                may = inl (is_verify, check_verify-Promotable h py p body w.store v checked);
              })))
          | inr not_verify ↦ rw not_verify (elim (Bool-cases (action == "complete")) [
            | inl is_complete ↦ rw is_complete (
                query-Unless _ _ _ w (λ v checked. inr (record {
                  plan = p;
                  found = found;
                  own = require-eq-ok _ _ u own;
                  may = inr (is_complete, check_complete-Completable p w.store v checked);
                })))
            | inr not_complete ↦ rw not_complete (inl (_, refl))
          ])
        ])))

  -- A request of another action than create either is refused and changes nothing, or it names a plan
  -- of the asset that may be promoted or completed: its service is in the state COMPATIBILITY, its
  -- compatibility release is HEALTHY, the verification passed and is named, and the rate is at
  -- least 0 and at most the maximum of the plan, unless one of them is a NaN; or its service is in the
  -- state STRICT and its strict release is HEALTHY.
  pub migrate-Gate :
      (asset_id : String) (body : Fields) (w : World)
      → (action_of h body == "create") ≡ false
      → Unless
          ((asset : AssetReport) × (get_crypto_asset asset_id 1000 w.store ≡ ok asset)
            × Gate asset_id asset body (action_of h body) w.store)
          w
          (migrate h py environment actor asset_id body w)
  unfolding migrate
  migrate-Gate asset_id body w other = query-Unless _ _ _ w (λ asset found.
      rw other (elim (migrate_plan-Gate (action_of h body) asset_id asset body w) [
        | inl refused ↦ inl refused
        | inr gate ↦ inr (asset, found, gate)
      ]))

-- ===== src/Control/Refused.antt =====
-- What `stage_document` of manager/control_plane.py does with a document that is not valid.
use pq_migration_gateway.Prelude.{
  ℕ, suc, ◌≡◌, refl, String, Option, some, arith, eqb_refl, inl, inr, ◌∙◌, sym, ap, subst, true,
  false,
}
use pq_migration_gateway.Result.{Error, Result, ok, err}
use pq_migration_gateway.Exec.{raise, ◌>>◌}
use pq_migration_gateway.Json.{Json, Fields}
use pq_migration_gateway.Store.Rows.{find_row}
use pq_migration_gateway.Store.Tables.{ReleaseStatus, draft, validation_failed, Store}
use pq_migration_gateway.Store.Releases.{
  status_of, create_version, write_version, write_status, find_version, is_version, set_status,
}
use pq_migration_gateway.Store.Releases.Steps.{set_status-writes}
use pq_migration_gateway.Agent.Ends.{Ends, >>=-Ends, catch-Ends, on_store-Ends}
use pq_migration_gateway.Store.Releases.History.{status_at}
use pq_migration_gateway.Store.Releases.Moves.{set_status-moves}
use pq_migration_gateway.World.{World, Host}
use pq_migration_gateway.Agent.{on_store}
use pq_migration_gateway.Agent.Keeps.{is_err}
use pq_migration_gateway.Control.Validate.{Validated, validate_document}
use pq_migration_gateway.Control.{stage_version, stage_document, stored_with, key_or}

-- The new version is recorded as failed, and nothing else has happened.
pub record IsRefused (version : ℕ) (before after : World) : Type 0 where
  pub is_failed : status_at version after.store ≡ some validation_failed
  pub same_desired : after.desired ≡ before.desired
  pub same_releases : after.releases ≡ before.releases
  pub same_resources : after.store.service_resources ≡ before.store.service_resources

status_at-write_version :
    (checksum : String) (source : Json) (operator : String) (s : ReleaseStatus) (from : Option ℕ)
    (now : ℕ) (st : Store)
    → status_at (suc st.version_seq) (write_version checksum source "" operator s from now st)
      ≡ some s
unfolding write_version find_version find_row
status_at-write_version checksum source operator s from now st =
    ground (arith, eqb_refl (suc st.version_seq))

kept_resources :
    (checksum : String) (source : Json) (operator : String) (from : Option ℕ) (now : ℕ) (st : Store)
    → (write_version checksum source "" operator draft from now st).service_resources
      ≡ st.service_resources
unfolding write_version
kept_resources checksum source operator from now st = refl

set_status-service_resources :
    (v : ℕ) (name actor : String) (error : Option Error) (now : ℕ) (st : Store) {st' : Store}
    → set_status v name actor error now st ≡ ok st'
    → st'.service_resources ≡ st.service_resources
unfolding write_status
set_status-service_resources v name actor error now st e =
    elim (set_status-writes v name actor error now st e) [
      | inl same ↦ ap (λ s. s.service_resources) same
      | inr (row, s, _, _, written) ↦ ap (λ x. x.service_resources) written
    ]

module _ (h : Host) (source : Json) (x : Error) (invalid : validate_document h source ≡ err x) where
  abbrev Never : {A : Type 0} → A → World → Type 0
  Never a w = false ≡ true

  stage_version-IsRefused :
      (version : ℕ) (operator : String) (from : Option ℕ) (key : String) (before w : World)
      → status_at version w.store ≡ some draft
      → w.desired ≡ before.desired
      → w.releases ≡ before.releases
      → w.store.service_resources ≡ before.store.service_resources
      → Ends Never (IsRefused version before) (stage_version h version source operator from key w)
  unfolding stage_version status_of
  stage_version-IsRefused version operator from key before w at d r s =
      >>=-Ends Never _ _ _ _ w
        (catch-Ends Never _ (λ y. y ≡ w) _ _ w
          (subst (λ q. Ends Never (λ y. y ≡ w) (q, w)) (sym invalid) refl)
          (λ e w' is_w.
            subst
              (λ y. Ends {A = Validated} Never (IsRefused version before) (
                (on_store (set_status version "VALIDATION_FAILED" operator (some e)) >> raise e) y))
              (sym is_w)
              (let (st, moved, now_at) =
                  set_status-moves version "VALIDATION_FAILED" draft validation_failed operator
                    (some e) w.now w.store at refl refl refl in
                >>=-Ends (λ _. IsRefused version before) _ _ _ _ w
                  (on_store-Ends _ _ _ w st moved (record {
                    is_failed = now_at;
                    same_desired = d;
                    same_releases = r;
                    same_resources =
                        set_status-service_resources version "VALIDATION_FAILED" operator (some e)
                          w.now w.store moved
                        ∙ s;
                  }))
                  (λ _ w'' done. done))))
        (λ v w' n. absurd (cc (n)))

  stage_document-Ends :
      (environment operator : String) (from : Option ℕ) (signing_key : Option String) (w : World)
      → is_version from w.store ≡ true
      → Ends Never
          (IsRefused (suc w.store.version_seq) w)
          (stage_document h environment source operator from signing_key w)
  unfolding stage_document create_version status_of
  stage_document-Ends environment operator from signing_key w known =
      let v = suc w.store.version_seq in
      let st = write_version (h.digest source) source "" operator draft from w.now w.store in
      let created : create_version (h.digest source) source "" operator "DRAFT" from w.now w.store
          ≡ ok (v, st) =
        ground (arith, known) in
      let w₀ : World = record w { store = st } in
      >>=-Ends (λ u y. (u ≡ v) × (y ≡ w₀)) _ _ _ _ w
        (subst (λ q. Ends (λ u y. (u ≡ v) × (y ≡ w₀)) (IsRefused v w) (stored_with w q))
          (sym created) (refl, refl))
        (λ u y (is_v, is_w₀).
          subst
            (λ z.
              Ends Never (IsRefused v w)
                (stage_version h u source operator from (key_or environment signing_key) z))
            (sym is_w₀)
            (subst
              (λ z.
                Ends Never (IsRefused v w)
                  (stage_version h z source operator from (key_or environment signing_key) w₀))
              (sym is_v)
              (stage_version-IsRefused v operator from (key_or environment signing_key) w w₀
                (status_at-write_version (h.digest source) source operator draft from w.now w.store)
                refl refl (kept_resources (h.digest source) source operator from w.now w.store))))

-- A document that is not valid is kept as a version with the status VALIDATION_FAILED, and
-- `stage_document` raises; desired.json, the releases and the service resources stay as they were.
pub stage_document-IsRefused :
    (h : Host) (environment : String) (source : Json) (operator : String) (from : Option ℕ)
    (signing_key : Option String) (w : World) {x : Error}
    → validate_document h source ≡ err x
    → is_version from w.store ≡ true
    → (is_err (stage_document h environment source operator from signing_key w).0 ≡ true)
      × IsRefused
          (suc w.store.version_seq)
          w
          (stage_document h environment source operator from signing_key w).1
stage_document-IsRefused h environment source operator from signing_key w {x} invalid known =
    raised (IsRefused (suc w.store.version_seq) w) _
      (stage_document-Ends h source x invalid environment operator from signing_key w known)
  where
    raised :
        (Q : World → Type 0) (p : Result Fields × World)
        → Ends (λ _ _. false ≡ true) Q p
        → (is_err p.0 ≡ true) × Q p.1
    raised Q (ok o, w') n = cc
    raised Q (err e, w') q = (refl, q)

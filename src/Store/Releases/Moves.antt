-- ===== src/Store/Releases/Moves.antt =====
-- When `set_status` of manager/config_store.py succeeds.
use pq_migration_gateway.Prelude.{
  ℕ, ◌≡◌, refl, String, true, false, Option, some, arith, Option-cases, inl, inr, ap, subst,
  Bool-cases,
}
use pq_migration_gateway.Result.{Error, ok, err, release_transition, ok-injective}
use pq_migration_gateway.Store.Tables.{ReleaseStatus, Store}
use pq_migration_gateway.Store.Releases.{
  status_of, status_name, same_status, may_follow, set_status, set_known_status, write_status,
  find_version, with_status,
}
use pq_migration_gateway.Store.Releases.History.{status_at, status_in, find_row-update_self}

-- A version is moved along a transition.
pub set_status-moves :
    (v : ℕ) (name : String) (s target : ReleaseStatus) (actor : String) (error : Option Error)
    (now : ℕ) (st : Store)
    → status_at v st ≡ some s
    → status_of name ≡ some target
    → same_status s target ≡ false
    → may_follow s target ≡ true
    → (st' : Store) × (set_status v name actor error now st ≡ ok st')
      × (status_at v st' ≡ some target)
unfolding set_status set_known_status write_status find_version
set_status-moves v name s target actor error now st at named other legal =
    elim (Option-cases (find_version v st)) [
      | inl e ↦ absurd (ground (arith, e))
      | inr (row, e) ↦ (
        write_status v s target actor error now st,
        ground (arith, e),
        ap status_in (
            find_row-update_self v (with_status target error) (λ r. refl) st.config_versions row e),
      )
    ]

-- A version is not moved anywhere else.
pub set_status-refuses :
    (v : ℕ) (name : String) (s target : ReleaseStatus) (actor : String) (error : Option Error)
    (now : ℕ) (st : Store)
    → status_at v st ≡ some s
    → status_of name ≡ some target
    → same_status s target ≡ false
    → may_follow s target ≡ false
    → (e : Error) × (set_status v name actor error now st ≡ err e)
unfolding set_status set_known_status
set_status-refuses v name s target actor error now st at named other illegal =
    elim (Option-cases (find_version v st)) [
      | inl e ↦ absurd (ground (arith, e))
      | inr (row, e) ↦ (release_transition (status_name s) (status_name target), ground (arith, e))
    ]

same_status→eq : (a b : ReleaseStatus) → same_status a b ≡ true → a ≡ b
same_status→eq a b h = ground arith

-- A successful call leaves the version at the status.
pub set_status-enters :
    (v : ℕ) (name : String) (target : ReleaseStatus) (actor : String) (error : Option Error)
    (now : ℕ) (st : Store) {st' : Store}
    → status_of name ≡ some target
    → set_status v name actor error now st ≡ ok st'
    → status_at v st' ≡ some target
unfolding set_status set_known_status write_status find_version
set_status-enters v name target actor error now st {st'} named h =
    elim (Option-cases (find_version v st)) [
      | inl e ↦ absurd (ground (arith, e))
      | inr (row, e) ↦ elim (Bool-cases (same_status row.status target)) [
        | inl same ↦ ground (arith, e, same, same_status→eq row.status target same)
        | inr other ↦ elim (Bool-cases (may_follow row.status target)) [
          | inr illegal ↦ absurd (ground (arith, e, other, illegal))
          | inl legal ↦
              let after = write_status v row.status target actor error now st in
              let written : ok after ≡ ok st' = ground (arith, e, other, legal, h) in
              let placed = ap status_in (
                find_row-update_self v (with_status target error) (λ r. refl) st.config_versions row
                  e) in
              subst (λ x. status_at v x ≡ some target) (ok-injective written) placed
        ]
      ]
    ]

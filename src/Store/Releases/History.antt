-- ===== src/Store/Releases/History.antt =====
-- The status events of a version as a path in `RELEASE_TRANSITIONS` of manager/config_store.py, and
-- what each write of the release operations does to it.
use pq_migration_gateway.Prelude.{
  ℕ, suc, ◌<◌, ◌≡◌, inl, inr, refl, String, Bool, true, false, List, [], ◌∷◌, Option, none, some,
  arith, eqb, Bool-cases, eqb→eq, subst, sym, ap,
}
use pq_migration_gateway.Result.{Error}
use pq_migration_gateway.Json.{Json}
use pq_migration_gateway.Store.Rows.{find_row, update_rows}
use pq_migration_gateway.Store.Tables.{ReleaseStatus, VersionRow, StatusEvent, Store, empty_store}
use pq_migration_gateway.Store.Releases.{
  may_follow, has_version, find_version, write_version, status_event, with_artifacts, with_status,
  write_status,
}

-- The status of a version, if there is such a version.
abbrev pub status_in : Option VersionRow → Option ReleaseStatus
status_in none = none
status_in (some r) = some r.status

abbrev pub status_at : ℕ → Store → Option ReleaseStatus
status_at v st = status_in (find_version v st)

-- A version may be created with any release status, and changes only along a transition.
abbrev pub IsLegal : Option ReleaseStatus → ReleaseStatus → Type 0
IsLegal none s = Unit
IsLegal (some current) s = may_follow current s ≡ true

-- The events of version `v`, newest first, lead to the status `now`.
abbrev pub HistoryStep :
    Bool → Option ReleaseStatus → ReleaseStatus → Type 0 → Type 0 → Option ReleaseStatus → Type 0
HistoryStep true from to before skipped now = (now ≡ some to) × IsLegal from to × before
HistoryStep false from to before skipped now = skipped

abbrev pub History : ℕ → List StatusEvent → Option ReleaseStatus → Type 0
History v [] now = now ≡ none
History v (e ∷ es) now =
    HistoryStep (eqb e.version v) e.from_status e.to_status (History v es e.from_status)
      (History v es now) now

module _ (v : ℕ) (e : StatusEvent) (es : List StatusEvent) (now : Option ReleaseStatus) where
  History_self :
      eqb e.version v ≡ true
      → now ≡ some e.to_status
      → IsLegal e.from_status e.to_status
      → History v es e.from_status
      → History v (e ∷ es) now
  History_self mine last legal before =
      subst
        (λ b.
          HistoryStep b e.from_status e.to_status (History v es e.from_status) (History v es now)
            now)
        (sym mine) (last, legal, before)

  History_other : eqb e.version v ≡ false → History v es now → History v (e ∷ es) now
  History_other other h =
      subst
        (λ b.
          HistoryStep b e.from_status e.to_status (History v es e.from_status) (History v es now)
            now)
        (sym other) h

pub record IsRecorded (st : Store) : Type 0 where
  pub history : (v : ℕ) → History v st.config_status_events (status_at v st)
  pub numbered : (v : ℕ) → st.version_seq < v → find_version v st ≡ none

-- Updating the rows of one version, by a function that keeps the version number.
module _ (w : ℕ) (f : VersionRow → VersionRow)
    (same : (r : VersionRow) → (f r).version ≡ r.version) where
  pub find_row-update_self :
      (rows : List VersionRow) (r : VersionRow)
      → find_row (has_version w) rows ≡ some r
      → find_row (has_version w) (update_rows (has_version w) f rows) ≡ some (f r)
  unfolding find_row update_rows
  find_row-update_self [] r h = cc
  find_row-update_self (x ∷ rows) r h = ground (arith, same x, find_row-update_self rows r)

  pub find_row-update_ne :
      (v : ℕ) (rows : List VersionRow)
      → eqb w v ≡ false
      → find_row (has_version v) (update_rows (has_version w) f rows)
        ≡ find_row (has_version v) rows
  unfolding find_row update_rows
  find_row-update_ne v [] h = refl
  find_row-update_ne v (x ∷ rows) h = ground (arith, same x, find_row-update_ne v rows h)

  pub find_row-update_none :
      (v : ℕ) (rows : List VersionRow)
      → find_row (has_version v) rows ≡ none
      → find_row (has_version v) (update_rows (has_version w) f rows) ≡ none
  unfolding find_row update_rows
  find_row-update_none v [] h = refl
  find_row-update_none v (x ∷ rows) h = ground (arith, same x, find_row-update_none v rows)

pub empty-IsRecorded : IsRecorded empty_store
unfolding find_version find_row
empty-IsRecorded = record { history = λ v. refl; numbered = λ v h. refl }

pub write_status-IsRecorded :
    (w : ℕ) (st : Store) (row : VersionRow)
    → find_version w st ≡ some row
    → (s : ReleaseStatus) (actor : String) (error : Option Error) (now : ℕ)
    → may_follow row.status s ≡ true
    → IsRecorded st
    → IsRecorded (write_status w row.status s actor error now st)
unfolding write_status find_version
write_status-IsRecorded w st row found s actor error now legal h =
    let f = with_status s error in
    let e = status_event w (some row.status) s actor error now in
    let es = st.config_status_events in
    let before = subst (History w es) (ap status_in found) (h.history w) in
    let changed =
      ap status_in (find_row-update_self w f (λ r. refl) st.config_versions row found) in
    record {
      history = λ v. elim (Bool-cases (eqb w v)) [
        | inl mine ↦
            let is_v = eqb→eq w v mine in
            History_self v e es _ mine
              (subst
                (λ u.
                  status_in
                    (find_row (has_version u) (update_rows (has_version w) f st.config_versions))
                  ≡ some s)
                is_v changed)
              legal (subst (λ u. History u es (some row.status)) is_v before)
        | inr other ↦ History_other v e es _ other (
            subst (λ o. History v es (status_in o))
              (sym (find_row-update_ne w f (λ r. refl) v st.config_versions other)) (h.history v))
      ];
      numbered =
          λ v lt. find_row-update_none w f (λ r. refl) v st.config_versions (h.numbered v lt);
    }

pub write_version-IsRecorded :
    (checksum : String) (source : Json) (rendered operator : String) (s : ReleaseStatus)
    (from : Option ℕ) (now : ℕ) (st : Store)
    → IsRecorded st
    → IsRecorded (write_version checksum source rendered operator s from now st)
unfolding write_version find_version find_row
write_version-IsRecorded checksum source rendered operator s from now st h =
    let new = suc st.version_seq in
    let e = status_event new none s operator none now in
    let es = st.config_status_events in
    let before =
      subst (History new es) (ap status_in (h.numbered new (omega arith))) (h.history new) in
    record {
      history = λ v. elim (Bool-cases (eqb new v)) [
        | inl mine ↦
            History_self v e es _ mine (ground (arith, mine)) tt
              (subst (λ u. History u es none) (eqb→eq new v mine) before)
        | inr other ↦
            History_other v e es _ other
              (subst (History v es) (ground (arith, other)) (h.history v))
      ];
      numbered = λ v lt. ground (arith, h.numbered v);
    }

-- New artifacts leave every status alone.
status_in-artifacts :
    (w v : ℕ) (checksum : String) (source : Json) (rendered : String) (rows : List VersionRow)
    → status_in (
        find_row
          (has_version v)
          (update_rows (has_version w) (with_artifacts checksum source rendered) rows))
      ≡ status_in (find_row (has_version v) rows)
unfolding find_row update_rows
status_in-artifacts w v checksum source rendered [] = refl
status_in-artifacts w v checksum source rendered (r ∷ rows) =
    ground (arith, status_in-artifacts w v checksum source rendered rows)

pub with_artifacts-IsRecorded :
    (w : ℕ) (checksum : String) (source : Json) (rendered : String) (st : Store)
    → IsRecorded st
    → IsRecorded (record st {
      config_versions =
          update_rows (has_version w) (with_artifacts checksum source rendered) st.config_versions;
    })
unfolding find_version
with_artifacts-IsRecorded w checksum source rendered st h = record {
  history = λ v.
      subst (History v st.config_status_events)
        (sym (status_in-artifacts w v checksum source rendered st.config_versions)) (h.history v);
  numbered = λ v lt.
      find_row-update_none w (with_artifacts checksum source rendered) (λ r. refl) v
        st.config_versions (h.numbered v lt);
}

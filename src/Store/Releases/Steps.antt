-- ===== src/Store/Releases/Steps.antt =====
-- Runs of the release operations of manager/config_store.py.
use pq_migration_gateway.Prelude.{
  ℕ, suc, ◌≡◌, ◌⊎◌, inl, inr, String, true, Option, some, arith, Bool-cases, Option-cases,
}
use pq_migration_gateway.Result.{Error, ok}
use pq_migration_gateway.Json.{Json}
use pq_migration_gateway.Store.Rows.{update_rows}
use pq_migration_gateway.Store.Tables.{ReleaseStatus, VersionRow, Store, empty_store}
use pq_migration_gateway.Store.Releases.{
  status_of, same_status, may_follow, has_version, find_version, create_version, write_version,
  with_artifacts, set_known_status, update_draft_artifacts, write_status, set_status, is_open,
}
use pq_migration_gateway.Store.Releases.History.{
  IsRecorded, empty-IsRecorded, write_status-IsRecorded, write_version-IsRecorded,
  with_artifacts-IsRecorded,
}

-- One call of a release operation that succeeds.
pub data Step (st st' : Store) : Type 0 where
  created :
      (checksum : String) (source : Json) (rendered operator status : String) (from : Option ℕ)
      (now version : ℕ)
      → create_version checksum source rendered operator status from now st ≡ ok (version, st')
      → Step st st'
  redrafted :
      (version : ℕ) (checksum : String) (source : Json) (rendered : String)
      → update_draft_artifacts version checksum source rendered st ≡ ok st'
      → Step st st'
  moved :
      (version : ℕ) (status actor : String) (error : Option Error) (now : ℕ)
      → set_status version status actor error now st ≡ ok st'
      → Step st st'

pub data Reach (st : Store) : Store → Type 0 where
  here : Reach st st
  next : {st' st'' : Store} → Reach st st' → Step st' st'' → Reach st st''

-- What each operation has written, if it succeeds.
pub create_version-writes :
    (checksum : String) (source : Json) (rendered operator status : String) (from : Option ℕ)
    (now : ℕ) (st : Store) {version : ℕ} {st' : Store}
    → create_version checksum source rendered operator status from now st ≡ ok (version, st')
    → (s : ReleaseStatus) × (st' ≡ write_version checksum source rendered operator s from now st)
      × (version ≡ suc st.version_seq)
unfolding create_version
create_version-writes checksum source rendered operator status from now st h =
    elim (Option-cases (status_of status)) [
      | inl e ↦ absurd (ground (arith, e))
      | inr (s, e) ↦ (s, ground (arith, e), ground (arith, e))
    ]

pub update_draft_artifacts-writes :
    (version : ℕ) (checksum : String) (source : Json) (rendered : String) (st : Store) {st' : Store}
    → update_draft_artifacts version checksum source rendered st ≡ ok st'
    → (row : VersionRow) × (find_version version st ≡ some row)
      × (is_open row.status ≡ true)
      × (st' ≡ record st {
        config_versions =
            update_rows
              (has_version version)
              (with_artifacts checksum source rendered)
              st.config_versions;
      })
unfolding update_draft_artifacts
update_draft_artifacts-writes version checksum source rendered st h =
    elim (Option-cases (find_version version st)) [
      | inl e ↦ absurd (ground (arith, e))
      | inr (row, e) ↦ (row, e, ground (arith, e), ground (arith, e))
    ]

pub set_known_status-writes :
    (version : ℕ) (s : ReleaseStatus) (actor : String) (error : Option Error) (now : ℕ) (st : Store)
    {st' : Store}
    → set_known_status version s actor error now st ≡ ok st'
    → (st' ≡ st)
      ⊎ ((row : VersionRow) × (find_version version st ≡ some row)
          × (may_follow row.status s ≡ true)
          × (st' ≡ write_status version row.status s actor error now st))
unfolding set_known_status
set_known_status-writes version s actor error now st h =
    elim (Option-cases (find_version version st)) [
      | inl e ↦ absurd (ground (arith, e))
      | inr (row, e) ↦ elim (Bool-cases (same_status row.status s)) [
        | inl same ↦ inl (ground (arith, e, same))
        | inr other ↦ elim (Bool-cases (may_follow row.status s)) [
          | inl legal ↦ inr (row, e, legal, ground (arith, e, other, legal))
          | inr illegal ↦ absurd (ground (arith, e, other, illegal))
        ]
      ]
    ]

pub set_status-writes :
    (version : ℕ) (status actor : String) (error : Option Error) (now : ℕ) (st : Store)
    {st' : Store}
    → set_status version status actor error now st ≡ ok st'
    → (st' ≡ st)
      ⊎ ((row : VersionRow) × (s : ReleaseStatus) × (find_version version st ≡ some row)
          × (may_follow row.status s ≡ true)
          × (st' ≡ write_status version row.status s actor error now st))
unfolding set_status
set_status-writes version status actor error now st h = elim (Option-cases (status_of status)) [
  | inl e ↦ absurd (ground (arith, e))
  | inr (s, e) ↦ elim (set_known_status-writes version s actor error now st (ground (arith, e))) [
    | inl same ↦ inl same
    | inr (row, found, legal, written) ↦ inr (row, s, found, legal, written)
  ]
]

pub Step-IsRecorded : {st st' : Store} → Step st st' → IsRecorded st → IsRecorded st'
Step-IsRecorded {st} (created checksum source rendered operator status from now version e) h =
    let (s, written, _) =
      create_version-writes checksum source rendered operator status from now st e in
    rw written (write_version-IsRecorded checksum source rendered operator s from now st h)
Step-IsRecorded {st} (redrafted version checksum source rendered e) h =
    let (row, _, _, written) =
      update_draft_artifacts-writes version checksum source rendered st e in
    rw written (with_artifacts-IsRecorded version checksum source rendered st h)
Step-IsRecorded {st} (moved version status actor error now e) h =
    elim (set_status-writes version status actor error now st e) [
      | inl same ↦ rw same h
      | inr (row, s, found, legal, written) ↦
          rw written (write_status-IsRecorded version st row found s actor error now legal h)
    ]

-- After any release operations on a new database, the status events of every version start with its
-- creation, follow RELEASE_TRANSITIONS one after the other, and end at the status in its row; a
-- version number that was never given out has no row and no event.
pub Reach-IsRecorded : {st : Store} → Reach empty_store st → IsRecorded st
Reach-IsRecorded here = empty-IsRecorded
Reach-IsRecorded (next r s) = Step-IsRecorded s (Reach-IsRecorded r)

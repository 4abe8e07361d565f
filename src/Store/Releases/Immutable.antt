-- ===== src/Store/Releases/Immutable.antt =====
-- A validated release is immutable (manager/config_store.py).
use pq_migration_gateway.Prelude.{
  ℕ, ◌≡◌, inl, inr, refl, String, true, false, Option, some, arith, Bool-cases, eqb, eqb→eq, subst,
  sym, ◌∙◌,
}
use pq_migration_gateway.Result.{Error}
use pq_migration_gateway.Json.{Json}
use pq_migration_gateway.Store.Rows.{find_row, update_rows}
use pq_migration_gateway.Store.Tables.{ReleaseStatus, VersionRow, Store, empty_store}
use pq_migration_gateway.Store.Releases.{
  may_follow, has_version, find_version, write_version, with_artifacts, with_status, write_status,
  is_open,
}
use pq_migration_gateway.Store.Releases.History.{
  IsRecorded, find_row-update_self, find_row-update_ne,
}
use pq_migration_gateway.Store.Releases.Steps.{
  Step, Reach, created, redrafted, moved, here, next, create_version-writes,
  update_draft_artifacts-writes, set_status-writes, Step-IsRecorded, Reach-IsRecorded,
}

-- The columns that no release operation changes once a version is validated.
pub record SameRelease (r r' : VersionRow) : Type 0 where
  pub checksum : r'.checksum ≡ r.checksum
  pub source : r'.source ≡ r.source
  pub rendered : r'.rendered_config ≡ r.rendered_config
  pub created_at : r'.created_at ≡ r.created_at
  pub operator : r'.operator ≡ r.operator
  pub rollback_from : r'.rollback_from ≡ r.rollback_from
  pub closed : is_open r'.status ≡ false

-- Version `v` is in the store with the release of `r`.
abbrev pub Holds : ℕ → VersionRow → Store → Type 0
Holds v r st = (r' : VersionRow) × (find_version v st ≡ some r') × SameRelease r r'

-- No transition leads back to a draft.
may_follow-closed : (current s : ReleaseStatus) → may_follow current s ≡ true → is_open s ≡ false
may_follow-closed current s h = ground arith

write_version-Holds :
    (v : ℕ) (r : VersionRow) (checksum : String) (source : Json) (rendered operator : String)
    (s : ReleaseStatus) (from : Option ℕ) (now : ℕ) (st : Store)
    → IsRecorded st
    → Holds v r st
    → Holds v r (write_version checksum source rendered operator s from now st)
unfolding write_version find_version find_row
write_version-Holds v r checksum source rendered operator s from now st h (r', found, same) =
    (r', ground (arith, h.numbered v, found), same)

with_artifacts-Holds :
    (v w : ℕ) (r row : VersionRow) (checksum : String) (source : Json) (rendered : String)
    (st : Store)
    → find_version w st ≡ some row
    → is_open row.status ≡ true
    → Holds v r st
    → Holds v r (record st {
      config_versions =
          update_rows (has_version w) (with_artifacts checksum source rendered) st.config_versions;
    })
unfolding find_version
with_artifacts-Holds v w r row checksum source rendered st at_w opened (r', found, same) =
    elim (Bool-cases (eqb w v)) [
      | inl e ↦ absurd (cc (same.closed, at_w, found, eqb→eq w v e))
      | inr e ↦ (
        r',
        find_row-update_ne w (with_artifacts checksum source rendered) (λ x. refl) v
              st.config_versions e
            ∙ found,
        same,
      )
    ]

write_status-Holds :
    (v w : ℕ) (r row : VersionRow) (s : ReleaseStatus) (actor : String) (error : Option Error)
    (now : ℕ) (st : Store)
    → find_version w st ≡ some row
    → may_follow row.status s ≡ true
    → Holds v r st
    → Holds v r (write_status w row.status s actor error now st)
unfolding find_version write_status
write_status-Holds v w r row s actor error now st at_w legal (r', found, same) =
    elim (Bool-cases (eqb w v)) [
      | inl e ↦
          let f = with_status s error in
          let is_v = eqb→eq w v e in
          let found_w = subst (λ u. find_version u st ≡ some r') (sym is_v) found in
          (
            f r',
            subst
                (λ u.
                  find_row (has_version u) (update_rows (has_version w) f st.config_versions)
                  ≡ some (f r'))
                is_v (find_row-update_self w f (λ x. refl) st.config_versions r' found_w),
            record {
              checksum = same.checksum;
              source = same.source;
              rendered = same.rendered;
              created_at = same.created_at;
              operator = same.operator;
              rollback_from = same.rollback_from;
              closed = may_follow-closed row.status s legal;
            },
          )
      | inr e ↦ (
        r',
        find_row-update_ne w (with_status s error) (λ x. refl) v st.config_versions e ∙ found,
        same,
      )
    ]

Step-Holds :
    {st st' : Store} (v : ℕ) (r : VersionRow)
    → Step st st'
    → IsRecorded st
    → Holds v r st
    → Holds v r st'
Step-Holds {st} v r (created checksum source rendered operator status from now version e) h held =
    let (s, written, _) =
      create_version-writes checksum source rendered operator status from now st e in
    rw written (write_version-Holds v r checksum source rendered operator s from now st h held)
Step-Holds {st} v r (redrafted w checksum source rendered e) h held =
    let (row, found, opened, written) =
      update_draft_artifacts-writes w checksum source rendered st e in
    rw written (with_artifacts-Holds v w r row checksum source rendered st found opened held)
Step-Holds {st} v r (moved w status actor error now e) h held =
    elim (set_status-writes w status actor error now st e) [
      | inl same ↦ rw same held
      | inr (row, s, found, legal, written) ↦
          rw written (write_status-Holds v w r row s actor error now st found legal held)
    ]

Reach-Holds :
    {st st' : Store} (v : ℕ) (r : VersionRow)
    → Reach st st'
    → IsRecorded st
    → Holds v r st
    → IsRecorded st' × Holds v r st'
Reach-Holds v r here h held = (h, held)
Reach-Holds v r (next before s) h held =
    let (h', held') = Reach-Holds v r before h held in
    (Step-IsRecorded s h', Step-Holds v r s h' held')

-- Once a version is past DRAFT and CANDIDATE, no sequence of release operations changes its
-- checksum, source, rendered configuration, creator or origin, removes it, or makes it a draft again.
pub Reach-immutable :
    {st st' : Store} (v : ℕ) (r : VersionRow)
    → Reach empty_store st
    → find_version v st ≡ some r
    → is_open r.status ≡ false
    → Reach st st'
    → Holds v r st'
Reach-immutable v r before found closed after =
    (Reach-Holds v r after (Reach-IsRecorded before) (
      r,
      found,
      record {
        checksum = refl;
        source = refl;
        rendered = refl;
        created_at = refl;
        operator = refl;
        rollback_from = refl;
        closed = closed;
      },
    )).1

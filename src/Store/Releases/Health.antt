-- ===== src/Store/Releases/Health.antt =====
-- How a release becomes HEALTHY (manager/config_store.py).
use pq_migration_gateway.Prelude.{
  ℕ, ◌≡◌, ◌⊎◌, inl, inr, refl, Bool, true, false, List, [], ◌∷◌, Option, none, some, arith,
  Bool-cases, eqb, if◌then◌else◌, ◌||◌, subst, sym,
}
use mathlib.Core.Option.{some-injective}
use pq_migration_gateway.Store.Tables.{
  ReleaseStatus, applied, healthy, StatusEvent, Store, empty_store,
}
use pq_migration_gateway.Store.Releases.{same_status, may_follow}
use pq_migration_gateway.Store.Releases.History.{History, HistoryStep, IsLegal, status_at}
use pq_migration_gateway.Store.Releases.Steps.{Reach, Reach-IsRecorded}

-- Some event of version `v` enters a status.
abbrev pub entered : ℕ → ReleaseStatus → List StatusEvent → Bool
entered v s [] = false
entered v s (e ∷ es) =
    (if eqb e.version v then same_status e.to_status s else false) || entered v s es

abbrev is_none : Option ReleaseStatus → Bool
is_none none = true
is_none (some _) = false

-- Version `v` was created with a status, rather than moved to it.
abbrev pub created_as : ℕ → ReleaseStatus → List StatusEvent → Bool
created_as v s [] = false
created_as v s (e ∷ es) =
    (if eqb e.version v
      then (if is_none e.from_status then same_status e.to_status s else false)
      else false)
    || created_as v s es

-- Take the newest event apart.
abbrev Newest : ℕ → StatusEvent → List StatusEvent → Option ReleaseStatus → Type 0
Newest v e es now =
    (eqb e.version v ≡ true)
    × (now ≡ some e.to_status)
    × IsLegal e.from_status e.to_status
    × History v es e.from_status

History-cases :
    (v : ℕ) (e : StatusEvent) (es : List StatusEvent) (now : Option ReleaseStatus)
    → History v (e ∷ es) now
    → Newest v e es now ⊎ ((eqb e.version v ≡ false) × History v es now)
History-cases v e es now h =
    let family : Bool → Type 0 = λ b.
      HistoryStep b e.from_status e.to_status (History v es e.from_status) (History v es now) now in
    elim (Bool-cases (eqb e.version v)) [
      | inl mine ↦
          (let (last, legal, before) = subst family mine h in inl (mine, last, legal, before))
      | inr other ↦ inr (other, subst family other h)
    ]

entered_of_History :
    (v : ℕ) (s : ReleaseStatus) (es : List StatusEvent)
    → History v es (some s)
    → entered v s es ≡ true
entered_of_History v s [] h = cc
entered_of_History v s (e ∷ es) h = elim (History-cases v e es (some s) h) [
  | inl (mine, last, _, _) ↦ ground (arith, mine, last)
  | inr (other, h') ↦ ground (arith, entered_of_History v s es h')
]

before_healthy : (s : ReleaseStatus) → may_follow s healthy ≡ true → s ≡ applied
before_healthy s h = ground arith

healthy_event :
    (v : ℕ) (e : StatusEvent) (es : List StatusEvent) (from : Option ReleaseStatus)
    → e.from_status ≡ from
    → Newest v e es (some healthy)
    → (created_as v healthy (e ∷ es) ≡ true) ⊎ (entered v applied es ≡ true)
healthy_event v e es none p (mine, last, legal, before) = inl (ground (arith, mine, last, p))
healthy_event v e es (some s) p (mine, last, legal, before) =
    let legal' =
      subst (λ t. IsLegal (some s) t) (sym (some-injective healthy e.to_status last))
        (subst (λ o. IsLegal o e.to_status) p legal) in
    inr (
      entered_of_History v applied es (
        subst (λ x. History v es (some x)) (before_healthy s legal')
          (subst (History v es) p before)))

healthy-after-applied :
    (v : ℕ) (es : List StatusEvent)
    → History v es (some healthy)
    → (created_as v healthy es ≡ true) ⊎ (entered v applied es ≡ true)
healthy-after-applied v [] h = cc
healthy-after-applied v (e ∷ es) h = elim (History-cases v e es (some healthy) h) [
  | inl newest ↦ elim (healthy_event v e es e.from_status refl newest) [
    | inl c ↦ inl c
    | inr a ↦ inr (ground (arith, a))
  ]
  | inr (other, h') ↦ elim (healthy-after-applied v es h') [
    | inl c ↦ inl (ground (arith, c))
    | inr a ↦ inr (ground (arith, a))
  ]
]

-- A release that is HEALTHY has been APPLIED before, unless it was created HEALTHY.
pub Reach-healthy :
    {st : Store} (v : ℕ)
    → Reach empty_store st
    → status_at v st ≡ some healthy
    → (created_as v healthy st.config_status_events ≡ true)
      ⊎ (entered v applied st.config_status_events ≡ true)
Reach-healthy {st} v r is_healthy =
    healthy-after-applied v st.config_status_events
      (subst (History v st.config_status_events) is_healthy ((Reach-IsRecorded r).history v))

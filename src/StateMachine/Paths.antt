-- ===== src/StateMachine/Paths.antt =====
-- Runs of `transition` of manager/state_machine.py.
use pq_migration_gateway.Prelude.{
  ℕ, ◌≡◌, inl, inr, refl, String, Bool, true, false, List, [], ◌∷◌, Option, none, some, arith,
  Bool-cases, Option-cases, ◌==◌, eq_iff, subst, ap, sym, All,
}
use pq_migration_gateway.Result.{ok}
use pq_migration_gateway.Store.Rows.{find_row, upsert_row}
use pq_migration_gateway.Store.Tables.{
  MigrationState, discovered, assessed, planned, compatibility, pqc_preferred, strict, verified,
  degraded, rolled_back, blocked, StateRow, TransitionRow, Store, empty_store,
}
use pq_migration_gateway.Prelude.Text.{upper, is_blank}
use pq_migration_gateway.StateMachine.{
  state_name, find_state, state_of, may_enter, has_service, get_state, source_of, Change,
  write_transition, enter, state_row, transition_row, transition, has_text, is_rate,
}

abbrev pub state_at : String → Store → Option MigrationState
state_at sid st = source_of (get_state sid st)

module _ (w : String) (row : StateRow) (named : row.service_id ≡ w) where
  find_row-upsert_self :
      (rows : List StateRow)
      → find_row (has_service w) (upsert_row (has_service w) (λ _. row) row rows) ≡ some row
  unfolding find_row upsert_row
  find_row-upsert_self [] = ground (arith, eq_iff row.service_id w)
  find_row-upsert_self (x ∷ rows) =
      ground (arith, eq_iff row.service_id w, find_row-upsert_self rows)

  find_row-upsert_ne :
      (v : String) (rows : List StateRow)
      → (w == v) ≡ false
      → find_row (has_service v) (upsert_row (has_service w) (λ _. row) row rows)
        ≡ find_row (has_service v) rows
  unfolding find_row upsert_row
  find_row-upsert_ne v [] h = ground (arith, eq_iff row.service_id v, eq_iff w v)
  find_row-upsert_ne v (x ∷ rows) h = ground (
    arith,
    eq_iff row.service_id v,
    eq_iff w v,
    eq_iff x.service_id w,
    eq_iff x.service_id v,
    find_row-upsert_ne v rows h,
  )

-- What every recorded transition satisfies.
pub record IsSound (t : TransitionRow) : Type 0 where
  pub legal : may_enter t.from_state t.to_state ≡ true
  pub evidence : t.to_state ≡ verified → has_text t.verification_result ≡ true
  pub rate : is_rate t.fallback_rate ≡ true
  pub reason_given : is_blank t.reason ≡ false

-- The transitions of service `sid`, newest first, lead to the state `now`.
abbrev pub TrailStep : Bool → MigrationState → Type 0 → Type 0 → Option MigrationState → Type 0
TrailStep true to before skipped now = (now ≡ some to) × before
TrailStep false to before skipped now = skipped

abbrev pub Trail : String → List TransitionRow → Option MigrationState → Type 0
Trail sid [] now = now ≡ none
Trail sid (t ∷ ts) now =
    TrailStep (t.service_id == sid) t.to_state (Trail sid ts t.from_state) (Trail sid ts now) now

module _ (sid : String) (t : TransitionRow) (ts : List TransitionRow)
    (now : Option MigrationState) where
  Trail-self :
      (t.service_id == sid) ≡ true
      → now ≡ some t.to_state
      → Trail sid ts t.from_state
      → Trail sid (t ∷ ts) now
  Trail-self mine last before =
      subst (λ b. TrailStep b t.to_state (Trail sid ts t.from_state) (Trail sid ts now) now)
        (sym mine) (last, before)

  Trail-other : (t.service_id == sid) ≡ false → Trail sid ts now → Trail sid (t ∷ ts) now
  Trail-other other h =
      subst (λ b. TrailStep b t.to_state (Trail sid ts t.from_state) (Trail sid ts now) now)
        (sym other) h

pub record IsAudited (st : Store) : Type 0 where
  pub trail : (sid : String) → Trail sid st.state_transitions (state_at sid st)
  pub sound : All IsSound st.state_transitions

pub empty-IsAudited : IsAudited empty_store
unfolding get_state find_row
empty-IsAudited = record { trail = λ sid. refl; sound = tt }

write_transition-IsAudited :
    (w : String) (target : MigrationState) (c : Change) (now : ℕ) (st : Store)
    → IsSound (transition_row w (state_at w st) target c now)
    → IsAudited st
    → IsAudited (write_transition w (state_at w st) target c now st)
unfolding write_transition get_state
write_transition-IsAudited w target c now st ok_row h =
    let row = state_row w target c now in
    let t = transition_row w (state_at w st) target c now in
    let ts = st.state_transitions in
    record {
      trail = λ sid. elim (Bool-cases (w == sid)) [
        | inl mine ↦
            let is_sid = (eq_iff w sid).0 mine in
            Trail-self sid t ts _ mine
              (subst
                (λ u.
                  source_of (
                    find_row (has_service u)
                      (upsert_row (has_service w) (λ _. row) row st.service_states))
                  ≡ some target)
                is_sid (ap source_of (find_row-upsert_self w row refl st.service_states)))
              (subst (λ u. Trail u ts (state_at w st)) is_sid (h.trail w))
        | inr other ↦ Trail-other sid t ts _ other (
            subst (λ o. Trail sid ts (source_of o))
              (sym (find_row-upsert_ne w row refl sid st.service_states other)) (h.trail sid))
      ];
      sound = (ok_row, h.sound);
    }

-- What a successful call has checked and written.
transition-writes :
    (sid target : String) (c : Change) (now : ℕ) (st : Store) {st' : Store}
    → transition sid target c now st ≡ ok st'
    → (m : MigrationState) × IsSound (transition_row sid (state_at sid st) m c now)
      × (st' ≡ write_transition sid (state_at sid st) m c now st)
unfolding transition enter
transition-writes sid target c now st h = elim (Option-cases (state_of (upper target))) [
  | inl e ↦ absurd (ground (arith, e))
  | inr (m, e) ↦ (m, ground (arith, e), ground (arith, e))
]

pub data Reach : Store → Type 0 where
  new : Reach empty_store
  move :
      {st st' : Store}
      → Reach st
      → (sid target : String) (c : Change) (now : ℕ) → transition sid target c now st ≡ ok st'
      → Reach st'

-- After any transitions from a new database: the recorded transitions of every service are a path in
-- TRANSITIONS from its DISCOVERED entry to its present state; every one of them gives a reason, has a
-- fallback rate between 0 and 1 if any, and has a verification result if it enters VERIFIED.
pub Reach-IsAudited : {st : Store} → Reach st → IsAudited st
Reach-IsAudited new = empty-IsAudited
Reach-IsAudited (move {st = st} r sid target c now e) =
    let (m, fine, written) = transition-writes sid target c now st e in
    rw written (write_transition-IsAudited sid m c now st fine (Reach-IsAudited r))

state_of-state_name : (m : MigrationState) → state_of (upper (state_name m)) ≡ some m
unfolding state_of state_name upper find_state
state_of-state_name discovered = refl
state_of-state_name assessed = refl
state_of-state_name planned = refl
state_of-state_name compatibility = refl
state_of-state_name pqc_preferred = refl
state_of-state_name strict = refl
state_of-state_name verified = refl
state_of-state_name degraded = refl
state_of-state_name rolled_back = refl
state_of-state_name blocked = refl

transition-moves :
    (sid : String) (m : MigrationState) (c : Change) (now : ℕ) (st st' : Store)
    → transition sid (state_name m) c now st ≡ ok st'
    → st' ≡ write_transition sid (state_at sid st) m c now st
unfolding transition enter
transition-moves sid m c now st st' e = ground (arith, state_of-state_name m)

-- A service that a transition has moved is in the state that was asked for.
pub get_state-transition :
    (sid : String) (m : MigrationState) (c : Change) (now : ℕ) (st st' : Store)
    → transition sid (state_name m) c now st ≡ ok st'
    → get_state sid st' ≡ some (state_row sid m c now)
unfolding get_state write_transition
get_state-transition sid m c now st st' e =
    subst (λ s. get_state sid s ≡ some (state_row sid m c now))
      (sym (transition-moves sid m c now st st' e))
      (find_row-upsert_self sid (state_row sid m c now) refl st.service_states)

-- ===== src/Migration/Leaves.antt =====
-- What parts of `migrate` of manager/scan_orchestrator.py leave in the database when they return.
use pq_migration_gateway.Prelude.{
  ◌≡◌, refl, subst, sym, ap, ◌∙◌, ℕ, String, true, [], ◌∷◌, some, inl, inr, Bool-cases, eqb_refl,
}
use pq_migration_gateway.Result.{Result, ok, err, ok-injective}
use pq_migration_gateway.Exec.{Exec, query, ◌>>=◌}
use pq_migration_gateway.Exec.Ends.{Ends, >>=-Ends, query-Ends}
use pq_migration_gateway.Store.Tables.{MigrationState, Store}
use pq_migration_gateway.StateMachine.{Change, source_of, state_name, transition}
use pq_migration_gateway.StateMachine.Paths.{state_at, get_state-transition}
use pq_migration_gateway.World.{World}
use pq_migration_gateway.Agent.{on_store, stored}
use pq_migration_gateway.Migration.Assess.{is_state, advance_to, advance}

-- A condition on the database after a computation that returned.
abbrev pub Leaves : {A : Type 0} → (Store → Type 0) → Result A × World → Type 0
Leaves P end = Ends (λ _ (w : World). P w.store) (λ (_ : World). Unit {0}) end

pub anything : {A : Type 0} (end : Result A × World) → Leaves (λ _. Unit {0}) end
anything (ok a, w) = tt
anything (err e, w) = tt

pub weaken :
    (P R : Store → Type 0) (end : Result (Unit {0}) × World)
    → ((st : Store) → P st → R st)
    → Leaves P end
    → Leaves R end
weaken P R (ok a, w) f h = f w.store h
weaken P R (err e, w) f h = tt

-- What the rest leaves, whatever ran before it.
pub skip :
    {A B : Type 0} (P : Store → Type 0) (m : Exec World A) (f : A → Exec World B) (w : World)
    → ((a : A) (w' : World) → Leaves P (f a w'))
    → Leaves P ((m >>= f) w)
skip P m f w rest = >>=-Ends _ _ _ m f w (anything (m w)) (λ a w' _. rest a w')

pub on_store-Leaves :
    (P : Store → Type 0) (f : ℕ → Store → Result Store) (w : World)
    → ((st' : Store) → f w.now w.store ≡ ok st' → P st')
    → Leaves P (on_store f w)
unfolding on_store
on_store-Leaves P f w done = go (f w.now w.store) done
  where
    go : (r : Result Store) → ((st' : Store) → r ≡ ok st' → P st') → Leaves P (stored w r)
    go (ok st') h = h st' refl
    go (err e) h = tt

is_state_self : (m : MigrationState) → is_state m (some m) ≡ true
is_state_self m = eqb_refl _

-- What the rest leaves after a read that returned.
pub look :
    {A B : Type 0} (P : Store → Type 0) (f : World → Result A) (next : A → Exec World B) (w : World)
    → ((a : A) → f w ≡ ok a → Leaves P (next a w))
    → Leaves P ((query f >>= next) w)
look P f next w rest =
    >>=-Ends (λ a v. (f w ≡ ok a) × (v ≡ w)) _ _ (query f) next w
      (query-Ends _ _ f w (λ a e. (e, refl)) tt)
      (λ a v (e, same). subst (λ u. Leaves P (next a u)) (sym same) (rest a e))

advance_to-Leaves :
    (sid : String) (c : Change) (m : MigrationState) (w : World)
    → Leaves (λ st. is_state m (state_at sid st) ≡ true) (advance_to sid c m w)
unfolding advance_to
advance_to-Leaves sid c m w = look _ _ _ w (λ b e. elim (Bool-cases b) [
  | inl there ↦ rw there (ok-injective e ∙ there)
  | inr away ↦ rw away (
      on_store-Leaves _ (transition sid (state_name m) c) w (λ st' moved.
        ap (λ s. is_state m (source_of s)) (get_state-transition sid m c w.now w.store st' moved)
        ∙ is_state_self m))
])

pub advance-Leaves :
    (sid : String) (c : Change) (m : MigrationState) (w : World)
    → Leaves (λ st. is_state m (state_at sid st) ≡ true) (advance sid c (m ∷ []) w)
unfolding advance
advance-Leaves sid c m w =
    >>=-Ends _ _ _ (advance_to sid c m) _ w (advance_to-Leaves sid c m w) (λ _ _ e. e)

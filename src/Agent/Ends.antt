-- ===== src/Agent/Ends.antt =====
-- Conditions on both ends of a computation of gateway/agent.py: on its result and the world if it
-- returns, on the world if it raises.
use pq_migration_gateway.Prelude.{◌≡◌, ℕ, true, none, Option-cases, subst, sym, inl, inr, ◌∷◌}
use pq_migration_gateway.Result.{Error, Result, ok, err, Result-cases}
pub use pq_migration_gateway.Exec.Ends.{Ends, >>=-Ends, catch-Ends}
use pq_migration_gateway.Store.Tables.{Store}
use pq_migration_gateway.World.{World, Command, Host}
use pq_migration_gateway.Agent.{on_store, command, answer, stored}
use pq_migration_gateway.Agent.Keeps.{is_err}

-- A computation that raises.
pub raised-Ends :
    {A : Type 0} (P : A → World → Type 0) (Q : World → Type 0) (p : Result A × World)
    → is_err p.0 ≡ true
    → Q p.1
    → Ends P Q p
raised-Ends P Q (ok a, w) h q = cc
raised-Ends P Q (err e, w) h q = q

-- A condition that does not read the list of commands.
pub command-Ends :
    (Q : World → Type 0) (h : Host) (c : World → Command) (w : World)
    → Q (record w { commands = c w ∷ w.commands })
    → Ends (λ _. Q) Q (command h c w)
unfolding command
command-Ends Q h c w q = elim (Option-cases (h.outcome (c w ∷ w.commands))) [
  | inl e ↦ subst (λ o. Ends (λ _. Q) Q (answer c w o)) (sym e) q
  | inr (x, e) ↦ subst (λ o. Ends (λ _. Q) Q (answer c w o)) (sym e) q
]

pub on_store-Ends :
    (P : Unit {0} → World → Type 0) (Q : World → Type 0) (f : ℕ → Store → Result Store) (w : World)
    (st : Store)
    → f w.now w.store ≡ ok st
    → P tt (record w { store = st })
    → Ends P Q (on_store f w)
unfolding on_store
on_store-Ends P Q f w st e p = subst (λ r. Ends P Q (stored w r)) (sym e) p

pub on_store-raises :
    (P : Unit {0} → World → Type 0) (Q : World → Type 0) (f : ℕ → Store → Result Store) (w : World)
    (e : Error)
    → f w.now w.store ≡ err e
    → Q w
    → Ends P Q (on_store f w)
unfolding on_store
on_store-raises P Q f w x e q = subst (λ r. Ends P Q (stored w r)) (sym e) q

pub command-returns :
    (P : Unit {0} → World → Type 0) (Q : World → Type 0) (h : Host) (c : World → Command)
    (w : World)
    → h.outcome (c w ∷ w.commands) ≡ none
    → P tt (record w { commands = c w ∷ w.commands })
    → Ends P Q (command h c w)
unfolding command
command-returns P Q h c w e p = subst (λ o. Ends P Q (answer c w o)) (sym e) p

-- A transaction, whether it is committed or not.
pub on_store-either :
    (P : Unit {0} → World → Type 0) (Q : World → Type 0) (f : ℕ → Store → Result Store) (w : World)
    → ((st : Store) → f w.now w.store ≡ ok st → P tt (record w { store = st }))
    → Q w
    → Ends P Q (on_store f w)
unfolding on_store
on_store-either P Q f w committed q = elim (Result-cases (f w.now w.store)) [
  | inl (st, e) ↦ subst (λ r. Ends P Q (stored w r)) (sym e) (committed st e)
  | inr (x, e) ↦ subst (λ r. Ends P Q (stored w r)) (sym e) q
]

-- No condition at all.
pub any-Ends : {A : Type 0} (p : Result A × World) → Ends (λ _ _. Unit {0}) (λ _. Unit {0}) p
any-Ends (ok a, w) = tt
any-Ends (err e, w) = tt

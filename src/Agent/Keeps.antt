-- ===== src/Agent/Keeps.antt =====
-- Computations of gateway/agent.py that leave a part of the world alone, and ones that raise.
use pq_migration_gateway.Prelude.{
  ◌≡◌, refl, ℕ, Bool, true, false, arith, Option-cases, ◌∙◌, inl, inr, ◌∷◌,
}
use pq_migration_gateway.Result.{Error, Result, ok, err, Result-cases}
use pq_migration_gateway.Exec.{Exec, raise, ◌>>=◌, catch}
use pq_migration_gateway.Store.Tables.{Store}
use pq_migration_gateway.World.{World, Command, Host}
use pq_migration_gateway.Agent.{on_store, command}

abbrev pub is_err : {A : Type 0} → Result A → Bool
is_err (ok a) = false
is_err (err e) = true

-- A computation that always raises.
abbrev pub Fails : {A : Type 0} → Exec World A → Type 0
Fails m = (w : World) → is_err (m w).0 ≡ true

pub raise-Fails : (A : Type 0) (e : Error) → Fails (raise {A = A} e)
raise-Fails A e w = refl

pub >>=-Fails :
    {A B : Type 0} (m : Exec World A) (f : A → Exec World B)
    → ((a : A) → Fails (f a))
    → Fails (m >>= f)
unfolding ◌>>=◌
>>=-Fails m f fails w = elim (Result-cases (m w).0) [
  | inl (a, e) ↦ rw (e, is_err, ◌>>=◌) (fails a (m w).1)
  | inr (x, e) ↦ rw (e, is_err, ◌>>=◌) refl
]

-- A computation that leaves a view of the world alone, whether it raises or not.
module _ {B : Type 0} (view : World → B) where
  abbrev pub Keeps : {A : Type 0} → Exec World A → Type 0
  Keeps m = (w : World) → view (m w).1 ≡ view w

  pub >>=-Keeps :
      {A C : Type 0} (m : Exec World A) (f : A → Exec World C)
      → Keeps m
      → ((a : A) → Keeps (f a))
      → Keeps (m >>= f)
  unfolding ◌>>=◌
  >>=-Keeps m f keeps then_keeps w = elim (Result-cases (m w).0) [
    | inl (a, e) ↦ rw (e, ◌>>=◌) (then_keeps a (m w).1 ∙ keeps w)
    | inr (x, e) ↦ rw (e, ◌>>=◌) (keeps w)
  ]

  pub catch-Keeps :
      {A : Type 0} (m : Exec World A) (f : Error → Exec World A)
      → Keeps m
      → ((e : Error) → Keeps (f e))
      → Keeps (catch m f)
  unfolding catch
  catch-Keeps m f keeps then_keeps w = elim (Result-cases (m w).0) [
    | inl (a, e) ↦ rw (e, catch) (keeps w)
    | inr (x, e) ↦ rw (e, catch) (then_keeps x (m w).1 ∙ keeps w)
  ]

  pub on_store-Keeps :
      (f : ℕ → Store → Result Store)
      → ((w : World) (st : Store) → view (record w { store = st }) ≡ view w)
      → Keeps (on_store f)
  unfolding on_store
  on_store-Keeps f keeps w = elim (Result-cases (f w.now w.store)) [
    | inl (st, e) ↦ rw (e, on_store) (keeps w st)
    | inr (x, e) ↦ rw (e, on_store) refl
  ]

-- A command changes nothing but the list of commands.
pub command-active : (h : Host) (c : World → Command) → Keeps (λ w. w.active) (command h c)
unfolding command
command-active h c w = elim (Option-cases (h.outcome (c w ∷ w.commands))) [
  | inl e ↦ rw (e, command) refl
  | inr (x, e) ↦ rw (e, command) refl
]

-- What is known when a sequence has succeeded.
pub >>=-eq-ok :
    {A B : Type 0} (m : Exec World A) (f : A → Exec World B) (w : World) {b : B} {w'' : World}
    → (m >>= f) w ≡ (ok b, w'')
    → (a : A) × (w' : World) × (m w ≡ (ok a, w')) × (f a w' ≡ (ok b, w''))
unfolding ◌>>=◌
>>=-eq-ok m f w h = elim (Result-cases (m w).0) [
  | inl (a, e) ↦ (a, (m w).1, ground (arith, e), ground (arith, e, h))
  | inr (x, e) ↦ absurd (ground (arith, e, h))
]

-- A handler that always raises has not run if the whole has succeeded.
pub catch-eq-ok :
    {A : Type 0} (m : Exec World A) (f : Error → Exec World A) (w : World) {a : A} {w' : World}
    → ((e : Error) → Fails (f e))
    → catch m f w ≡ (ok a, w')
    → m w ≡ (ok a, w')
unfolding catch
catch-eq-ok m f w fails h = elim (Result-cases (m w).0) [
  | inl (b, e) ↦ ground (arith, e, h)
  | inr (x, e) ↦ absurd (ground (arith, e, h, fails x (m w).1))
]

-- ===== src/Exec/Ends.antt =====
-- Conditions on both ends of a computation that may raise: on its result and the state if it
-- returns, on the state if it raises.
use pq_migration_gateway.Prelude.{◌≡◌, refl, sym, subst, ◌⊎◌, inl, inr}
use pq_migration_gateway.Result.{Error, Result, ok, err, Result-cases}
use pq_migration_gateway.Exec.{Exec, ◌>>=◌, catch, bind_from, handle_from, commit, committed, query}

module _ {S : Type 0} where
  abbrev pub Ends : {A : Type 0} → (A → S → Type 0) → (S → Type 0) → Result A × S → Type 0
  Ends P Q (ok a, s) = P a s
  Ends P Q (err e, s) = Q s

  pub >>=-Ends :
      {A B : Type 0} (P : A → S → Type 0) (R : B → S → Type 0) (Q : S → Type 0) (m : Exec S A)
      (f : A → Exec S B) (s : S)
      → Ends P Q (m s)
      → ((a : A) (s' : S) → P a s' → Ends R Q (f a s'))
      → Ends R Q ((m >>= f) s)
  unfolding ◌>>=◌
  >>=-Ends P R Q m f s first then = go (m s) first
    where
      go : (p : Result _ × S) → Ends P Q p → Ends R Q (bind_from f p)
      go (ok a, s') h = then a s' h
      go (err e, s') h = h

  pub catch-Ends :
      {A : Type 0} (P : A → S → Type 0) (Q Q' : S → Type 0) (m : Exec S A) (f : Error → Exec S A)
      (s : S)
      → Ends P Q' (m s)
      → ((e : Error) (s' : S) → Q' s' → Ends P Q (f e s'))
      → Ends P Q (catch m f s)
  unfolding catch
  catch-Ends P Q Q' m f s first then = go (m s) first
    where
      go : (p : Result _ × S) → Ends P Q' p → Ends P Q (handle_from f p)
      go (ok a, s') h = h
      go (err e, s') h = then e s' h

  -- A transaction that is rolled back leaves the state as it was.
  pub commit-Ends :
      (P : Unit {0} → S → Type 0) (Q : S → Type 0) (f : S → Result S) (s : S)
      → ((s' : S) → f s ≡ ok s' → P tt s')
      → Q s
      → Ends P Q (commit f s)
  unfolding commit
  commit-Ends P Q f s done rolled_back = go (f s) done
    where
      go : (r : Result S) → ((s' : S) → r ≡ ok s' → P tt s') → Ends P Q (committed s r)
      go (ok s') h = h s' (λ i. ok s')
      go (err e) h = rolled_back

  -- A read, which may raise.
  pub query-Ends :
      {A : Type 0} (P : A → S → Type 0) (Q : S → Type 0) (f : S → Result A) (s : S)
      → ((a : A) → f s ≡ ok a → P a s)
      → Q s
      → Ends P Q (query f s)
  query-Ends P Q f s done raised = go (f s) done
    where
      go : (r : Result _) → ((a : _) → r ≡ ok a → P a s) → Ends P Q (r, s)
      go (ok a) h = h a (λ i. ok a)
      go (err e) h = raised

  -- A read that returns.
  pub query-returns :
      {A : Type 0} (P : A → S → Type 0) (Q : S → Type 0) (f : S → Result A) (s : S) (a : A)
      → f s ≡ ok a
      → P a s
      → Ends P Q (query f s)
  query-returns P Q f s a e h = subst (λ r. Ends P Q (r, s)) (sym e) h

  -- A transaction that is committed.
  pub commit-returns :
      (P : Unit {0} → S → Type 0) (Q : S → Type 0) (f : S → Result S) (s s' : S)
      → f s ≡ ok s'
      → P tt s'
      → Ends P Q (commit f s)
  unfolding commit
  commit-returns P Q f s s' e h = subst (λ r. Ends P Q (committed s r)) (sym e) h

  -- A computation that cannot raise returns.
  pub Ends-ok :
      {A : Type 0} (P P' : A → S → Type 0) (Q : S → Type 0) (p : Result A × S)
      → Ends P Q p
      → Ends P' (λ _. ⊥) p
      → (a : A) × (s : S) × (p ≡ (ok a, s)) × P a s
  Ends-ok P P' Q (ok a, s) h h' = (a, s, (λ i. (ok a, s)), h)
  Ends-ok P P' Q (err e, s) h h' = elim h' [ ]

-- What comes after a read that returns, and after a transaction that is committed.
module _ {S A B : Type 0} (P : B → S → Type 0) (Q : S → Type 0) where
  pub query-then :
      (f : S → Result A) (next : A → Exec S B) (s : S) (a : A)
      → f s ≡ ok a
      → Ends P Q (next a s)
      → Ends P Q ((query f >>= next) s)
  unfolding ◌>>=◌
  query-then f next s a e h = rw e h

module _ {S B : Type 0} (P : B → S → Type 0) (Q : S → Type 0) where
  pub commit-then :
      (f : S → Result S) (next : Unit {0} → Exec S B) (s s' : S)
      → f s ≡ ok s'
      → Ends P Q (next tt s')
      → Ends P Q ((commit f >>= next) s)
  unfolding ◌>>=◌ commit
  commit-then f next s s' e h = rw e h

-- The computation raised and left the state as it was, unless `G` holds.
abbrev pub Unless : {S A : Type 0} → Type 0 → S → Result A × S → Type 0
Unless G s end = ((e : Error) × (end ≡ (err e, s))) ⊎ G

module _ {S A B : Type 0} where
  -- A read that raises leaves the state as it was.
  pub query-Unless :
      (G : Type 0) (f : S → Result A) (next : A → Exec S B) (s : S)
      → ((a : A) → f s ≡ ok a → Unless G s (next a s))
      → Unless G s ((query f >>= next) s)
  unfolding ◌>>=◌
  query-Unless G f next s rest = elim (Result-cases (f s)) [
    | inl (a, e) ↦ rw e (rest a e)
    | inr (raised, e) ↦ inl (raised, rw e refl)
  ]

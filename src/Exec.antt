-- ===== src/Exec.antt =====
-- Code that runs several transactions, or touches files between them: what was committed before an
-- exception stays, so the state comes back beside the error.
pub mod Ends
use pq_migration_gateway.Result.{Error, Result, ok, err}

abbrev pub Exec {ℓ} : Type ℓ → Type ℓ → Type ℓ
Exec S A = S → Result A × S

module _ {ℓ} {S A : Type ℓ} where
  abbrev pub pure : A → Exec S A
  pure a s = (ok a, s)

  abbrev pub raise : Error → Exec S A
  raise e s = (err e, s)

  abbrev pub gets : (S → A) → Exec S A
  gets f s = (ok (f s), s)

  -- A computation that only reads and may raise.
  abbrev pub query : (S → Result A) → Exec S A
  query f s = (f s, s)

abbrev pub modify : {S : Type 0} → (S → S) → Exec S (Unit {0})
modify f s = (ok tt, f s)

abbrev pub bind_from : {S A B : Type 0} → (A → Exec S B) → Result A × S → Result B × S
bind_from f (ok a, s) = f a s
bind_from f (err e, s) = (err e, s)

infixl 5 ◌>>=◌ ◌>>◌
unfoldable pub ◌>>=◌ : {S A B : Type 0} → Exec S A → (A → Exec S B) → Exec S B
m >>= f = λ s. bind_from f (m s)

abbrev pub ◌>>◌ : {S A B : Type 0} → Exec S A → Exec S B → Exec S B
m >> n = m >>= λ _. n

abbrev pub handle_from : {S A : Type 0} → (Error → Exec S A) → Result A × S → Result A × S
handle_from handler (ok a, s) = (ok a, s)
handle_from handler (err e, s) = handler e s

-- `try: m` with a handler that sees the exception.
unfoldable pub catch : {S A : Type 0} → Exec S A → (Error → Exec S A) → Exec S A
catch m handler s = handle_from handler (m s)

-- `with self.connect() as conn:`: one transaction, which an exception rolls back.
abbrev pub committed : {S : Type 0} → S → Result S → Result (Unit {0}) × S
committed s (ok s') = (ok tt, s')
committed s (err e) = (err e, s)

unfoldable pub commit : {S : Type 0} → (S → Result S) → Exec S (Unit {0})
commit f s = committed s (f s)

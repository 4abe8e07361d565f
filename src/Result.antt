-- ===== src/Result.antt =====
-- Exceptions of the control plane as values, and the pure code that may raise them.
use pq_migration_gateway.Prelude.{◌≡◌, refl, ℕ, String, Bool, true, false, ◌⊎◌, inl, inr}

-- One constructor for each exception class, with what its message is about: the field that was
-- refused, the key that was missing, the states between which there is no transition.
pub data Error : Type 0 where
  config_error : String → Error
  value_error : String → Error
  key_error : String → Error
  unknown_version : ℕ → Error
  release_error : String → Error
  release_transition : String → String → Error
  transition_error : String → Error
  integrity_error : String → Error
  apply_error : String → Error
  rollback_failed : Error → Error → Error
  no_previous : Error → Error
  file_exists : String → Error
  os_error : String → Error
  type_error : String → Error
  attribute_error : String → Error
  overflow_error : String → Error

pub data Result {ℓ} (A : Type ℓ) : Type ℓ where
  err : Error → Result A
  ok : A → Result A

-- `if not test: raise error`
abbrev pub require : Bool → Error → Result (Unit {0})
require true e = ok tt
require false e = err e

infixl 5 ◌>>=◌ ◌>>◌
abbrev pub ◌>>=◌ {ℓ κ} : {A : Type ℓ} {B : Type κ} → Result A → (next : A → Result B) → Result B
err raised >>= next = err raised
ok value >>= next = next value

abbrev pub ◌>>◌ {ℓ} : {B : Type ℓ} → Result (Unit {0}) → Result B → Result B
check >> rest = check >>= λ done. rest

pub Result-cases {ℓ} :
    {A : Type ℓ} (r : Result A) → ((a : A) × (r ≡ ok a)) ⊎ ((e : Error) × (r ≡ err e))
Result-cases (ok a) = inl (a, refl)
Result-cases (err e) = inr (e, refl)

-- What is known when a bind has succeeded.
module _ {ℓ κ} {A : Type ℓ} {B : Type κ} {out : B} where
  pub >>=-eq-ok :
      (r : Result A) (next : A → Result B)
      → (r >>= next) ≡ ok out
      → (value : A) × (r ≡ ok value) × (next value ≡ ok out)
  >>=-eq-ok (err raised) next e = cc
  >>=-eq-ok (ok value) next e = (value, refl, e)

pub require-eq-ok : (b : Bool) (e : Error) (u : Unit {0}) → require b e ≡ ok u → b ≡ true
require-eq-ok true e u h = refl
require-eq-ok false e u h = cc

-- What is known when the code after a check has succeeded.
pub require-then {ℓ} :
    {B : Type ℓ} (b : Bool) (e : Error) (rest : Result B) (v : B)
    → (require b e >> rest) ≡ ok v
    → (b ≡ true) × (rest ≡ ok v)
require-then true e rest v h = (refl, h)
require-then false e rest v h = cc

pub ok-injective {ℓ} : {A : Type ℓ} {a b : A} → ok a ≡ ok b → a ≡ b
ok-injective h = cc

-- ===== src/Config/Letters.antt =====
-- `str.lower` on the texts of gateway/model.py: it keeps safe names safe, and twice is once.
use Prim.Native.Nat.{◌<◌, ◌-◌}
use Prim.Native.Char.{Char, code}
use Prim.Native.String.{char_at}
use pq_migration_gateway.Prelude.{
  ℕ, zero, suc, ◌≡◌, refl, ap, String, Bool, true, false, ◌&&◌, inl, inr, arith, eqb, Bool-cases,
  &&-eq-true,
}
use pq_migration_gateway.Prelude.Text.{is_lower, is_upper, all_codes, lower_char, lower}
use pq_migration_gateway.Config.Fields.{name_code, safe_name, nonempty}

abbrev letters : String
letters = "abcdefghijklmnopqrstuvwxyz"

-- The first `k` letters are lower case.
first_letters : ℕ → Bool
first_letters zero = true
first_letters (suc k) = first_letters k && is_lower (code (char_at letters k))

first_letters-lower :
    (k n : ℕ) → k < n → first_letters n ≡ true → is_lower (code (char_at letters k)) ≡ true
unfolding first_letters
first_letters-lower k zero lt e = absurd (omega arith)
first_letters-lower k (suc n) lt e = ground (arith, first_letters-lower k n)

letters_lower : (k : ℕ) → k < 26 → is_lower (code (char_at letters k)) ≡ true
unfolding first_letters
letters_lower k lt = first_letters-lower k 26 lt refl

lower_char-lower : (c : Char) → is_upper (code c) ≡ true → is_lower (code (lower_char c)) ≡ true
unfolding lower_char
lower_char-lower c h = rw h (letters_lower (code c - 65) (ground arith))

lower_char_of_lower : (c : Char) → is_lower (code c) ≡ true → lower_char c ≡ c
unfolding lower_char
lower_char_of_lower c h = ground arith

lower_char_kelvin : (c : Char) → eqb (code c) 8490 ≡ true → lower_char c ≡ char_at "k" 0
unfolding lower_char
lower_char_kelvin c h = ground arith

lower_char_other :
    (c : Char) → is_upper (code c) ≡ false → eqb (code c) 8490 ≡ false → lower_char c ≡ c
unfolding lower_char
lower_char_other c h k = ground arith

pub lower_char_idem : (c : Char) → lower_char (lower_char c) ≡ lower_char c
lower_char_idem c = elim (Bool-cases (is_upper (code c))) [
  | inl up ↦ lower_char_of_lower (lower_char c) (lower_char-lower c up)
  | inr other ↦ elim (Bool-cases (eqb (code c) 8490)) [
    | inl k ↦ rw (lower_char_kelvin c k) (lower_char_of_lower (char_at "k" 0) refl)
    | inr more ↦ ap lower_char (lower_char_other c other more)
  ]
]

pub lower_idem : (s : String) → lower (lower s) ≡ lower s
unfolding lower
lower_idem String.[] = refl
lower_idem (String.◌∷◌ c s) = cc (lower_char_idem c, lower_idem s)

lower-name_code : (n : ℕ) → is_lower n ≡ true → name_code n ≡ true
lower-name_code n h = ground arith

name_code-ascii : (n : ℕ) → name_code n ≡ true → eqb n 8490 ≡ false
name_code-ascii n h = ground arith

lower_char-name_code :
    (c : Char) → name_code (code c) ≡ true → name_code (code (lower_char c)) ≡ true
lower_char-name_code c h = elim (Bool-cases (is_upper (code c))) [
  | inl up ↦ lower-name_code (code (lower_char c)) (lower_char-lower c up)
  | inr other ↦ rw (lower_char_other c other (name_code-ascii (code c) h)) h
]

lower-all_codes : (s : String) → all_codes name_code s ≡ true → all_codes name_code (lower s) ≡ true
unfolding lower
lower-all_codes String.[] h = refl
lower-all_codes (String.◌∷◌ c s) h =
    let (first, rest) = &&-eq-true (name_code (code c)) _ h in
    rw (lower_char-name_code c first) (lower-all_codes s rest)

lower-nonempty : (s : String) → nonempty (lower s) ≡ nonempty s
unfolding lower nonempty
lower-nonempty String.[] = refl
lower-nonempty (String.◌∷◌ c s) = refl

pub lower-safe_name : (s : String) → safe_name s ≡ true → safe_name (lower s) ≡ true
unfolding safe_name
lower-safe_name s h =
    let (filled, safe) = &&-eq-true (nonempty s) _ h in
    rw (lower-nonempty s, filled) (lower-all_codes s safe)

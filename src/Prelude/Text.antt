-- ===== src/Prelude/Text.antt =====
-- Texts that the program walks: `str.lower`, `str.upper`, the patterns of gateway/model.py, and
-- `str.split(":")`.
use Prim.Native.Nat.{ℕ, ◌-◌}
use Prim.Native.Char.{Char, code}
use Prim.Native.String.{String, ◌++◌, char_at}
use mathlib.Core.Bool.{Bool, true, false, ◌&&◌, ◌||◌}
use mathlib.Core.List.{List, [], ◌∷◌}
use pq_migration_gateway.Prelude.Tests.{leb, eqb, if◌then◌else◌}

abbrev pub between : ℕ → ℕ → ℕ → Bool
between lo hi c = leb lo c && leb c hi

abbrev pub is_lower : ℕ → Bool
is_lower c = between b'a' b'z' c

abbrev pub is_upper : ℕ → Bool
is_upper c = between b'A' b'Z' c

abbrev pub is_digit : ℕ → Bool
is_digit c = between b'0' b'9' c

abbrev pub is_alnum : ℕ → Bool
is_alnum c = is_lower c || is_upper c || is_digit c

-- Every character of a text passes a test.
abbrev pub all_codes : (ℕ → Bool) → String → Bool
all_codes p String.[] = true
all_codes p (String.◌∷◌ c s) = p (code c) && all_codes p s

-- `str.lower` on one character. Of the letters outside ASCII only the Kelvin sign (U+212A) has an
-- ASCII lower case; the others are left as they are, which no comparison with an ASCII word sees.
unfoldable pub lower_char : Char → Char
lower_char c =
    if is_upper (code c)
    then char_at "abcdefghijklmnopqrstuvwxyz" (code c - b'A')
    else if eqb (code c) 8490
    then char_at "k" 0
    else c

unfoldable pub lower : String → String
unfolding lower_char
lower String.[] = ""
lower (String.◌∷◌ c s) = String.◌∷◌ (lower_char c) (lower s)

-- `str.upper` on one character. The letters outside ASCII with an ASCII upper case are dotless i,
-- long s, sharp s and the Latin ligatures; the others are left as they are.
upper_special : ℕ → Char → String
upper_special n c =
    if eqb n 305
    then "I"
    else if eqb n 383
    then "S"
    else if eqb n 223
    then "SS"
    else if eqb n 64256
    then "FF"
    else if eqb n 64257
    then "FI"
    else if eqb n 64258
    then "FL"
    else if eqb n 64259
    then "FFI"
    else if eqb n 64260
    then "FFL"
    else if eqb n 64261 || eqb n 64262
    then "ST"
    else String.◌∷◌ c ""

upper_char : Char → String
unfolding upper_special
upper_char c =
    if is_lower (code c)
    then String.◌∷◌ (char_at "ABCDEFGHIJKLMNOPQRSTUVWXYZ" (code c - b'a')) ""
    else upper_special (code c) c

unfoldable pub upper : String → String
unfolding upper_char
upper String.[] = ""
upper (String.◌∷◌ c s) = upper_char c ++ upper s

-- `str.split(":")`
unfoldable pub add_front : Char → List String → List String
add_front c [] = String.◌∷◌ c "" ∷ []
add_front c (w ∷ ws) = String.◌∷◌ c w ∷ ws

unfoldable pub split_colon : String → List String
unfolding add_front
split_colon String.[] = "" ∷ []
split_colon (String.◌∷◌ c s) =
    let rest = split_colon s in if eqb (code c) b':' then "" ∷ rest else add_front c rest

-- `str.strip()` leaves something: some character is not white space.
abbrev pub is_space : ℕ → Bool
is_space c =
    between 9 13 c
    || between 28 32 c
    || eqb c 133
    || eqb c 160
    || eqb c 5760
    || between 8192 8202 c
    || eqb c 8232
    || eqb c 8233
    || eqb c 8239
    || eqb c 8287
    || eqb c 12288

unfoldable pub is_blank : String → Bool
is_blank s = all_codes is_space s

-- `str.strip()`
unfoldable pub strip_left : String → String
strip_left String.[] = ""
strip_left (String.◌∷◌ c s) = elim (is_space (code c)) [
  | true ↦ strip_left s
  | false ↦ String.◌∷◌ c s
]

unfoldable pub strip_right : String → String
strip_right String.[] = ""
strip_right (String.◌∷◌ c s) = elim (strip_right s) [
  | String.[] ↦ if is_space (code c) then "" else String.◌∷◌ c ""
  | String.◌∷◌ d t ↦ String.◌∷◌ c (String.◌∷◌ d t)
]

unfoldable pub strip : String → String
unfolding strip_left strip_right
strip s = strip_right (strip_left s)

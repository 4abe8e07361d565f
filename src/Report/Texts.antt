-- ===== src/Report/Texts.antt =====
-- `_text`, `_stable_id` and `classify_runtime_signal` of manager/runtime_ingest.py.
use Prim.Native.Nat.{◌/◌, ◌%◌}
use Prim.Native.Char.{code}
use Prim.Native.String.{char_at}
use pq_migration_gateway.Prelude.{
  ◌≡◌, refl, ℕ, zero, suc, ◌≤◌, String, Bool, true, false, ◌&&◌, ◌||◌, List, [], ◌∷◌, ◌==◌, append,
  arith, if◌then◌else◌, ltb, eqb,
}
use pq_migration_gateway.Prelude.Int.{ℤ, pos, negsuc}
use pq_migration_gateway.Prelude.Text.{upper}
use pq_migration_gateway.Json.{Json, truthy}
use pq_migration_gateway.Store.Inventory.{text}
use pq_migration_gateway.Gateway.Text.{join}

-- `s[:n]` and `len(s)`
unfoldable pub cut : ℕ → String → String
cut zero s = ""
cut (suc n) String.[] = ""
cut (suc n) (String.◌∷◌ c s) = String.◌∷◌ c (cut n s)

unfoldable pub text_length : String → ℕ
text_length String.[] = 0
text_length (String.◌∷◌ c s) = suc (text_length s)

pub text_length-cut : (n : ℕ) (s : String) → text_length (cut n s) ≤ n
unfolding cut text_length
text_length-cut zero s = omega arith
text_length-cut (suc n) String.[] = omega arith
text_length-cut (suc n) (String.◌∷◌ c s) = omega (arith, text_length-cut n s)

pub cut_all : (n : ℕ) (s : String) → text_length s ≤ n → cut n s ≡ s
unfolding cut text_length
cut_all zero String.[] h = refl
cut_all zero (String.◌∷◌ c s) h = absurd (omega arith)
cut_all (suc n) String.[] h = refl
cut_all (suc n) (String.◌∷◌ c s) h = rw (cut_all n s (omega arith))

-- `_text`
unfoldable pub limited_text : (Json → String) → ℕ → Json → String
unfolding cut
limited_text python_str limit v = cut limit (if truthy v then text python_str v else "")

-- `str(n)` for an integer; a number has no more digits than its value, and one for zero.
decimal_digits : ℕ → ℕ → String
decimal_digits zero n = ""
decimal_digits (suc fuel) n =
    let last = String.◌∷◌ (char_at "0123456789" (n % 10)) "" in
    elim (ltb n 10) [ true ↦ last | false ↦ append (decimal_digits fuel (n / 10)) last ]

unfoldable pub int_text : ℤ → String
unfolding decimal_digits
int_text (pos n) = decimal_digits (suc n) n
int_text (negsuc n) = append "-" (decimal_digits (suc (suc n)) (suc n))

-- `_stable_id`, where `sha256` is the hexadecimal digest of a text
unfoldable pub stable_id : (String → String) → String → List String → String
unfolding cut
stable_id sha256 prefix values = append prefix (append "-" (cut 24 (sha256 (join "\0" values))))

-- `token in s`, and `s.startswith(token)`
unfoldable pub starts_with : String → String → Bool
starts_with String.[] s = true
starts_with (String.◌∷◌ c t) String.[] = false
starts_with (String.◌∷◌ c t) (String.◌∷◌ d s) = eqb (code c) (code d) && starts_with t s

unfoldable pub contains : String → String → Bool
unfolding starts_with
contains token String.[] = starts_with token ""
contains token (String.◌∷◌ c s) = starts_with token (String.◌∷◌ c s) || contains token s

unfoldable pub contains_any : List String → String → Bool
unfolding contains
contains_any [] s = false
contains_any (token ∷ tokens) s = contains token s || contains_any tokens s

pub record Label : Type 0 where
  pub algorithm : String
  pub risk : String
  pub pq_status : String

abbrev label : String → String → String → Label
label algorithm risk pq_status = record {
  algorithm = algorithm;
  risk = risk;
  pq_status = pq_status;
}

abbrev pub if_called : String → String → String → String
if_called evidence_type called mapped =
    if evidence_type == "runtime_crypto_api" then called else mapped

abbrev pqc_tokens : List String
pqc_tokens = "OQS_" ∷ "LIBOQS" ∷ "MLKEM" ∷ "ML-KEM" ∷ "MLDSA" ∷ "ML-DSA" ∷ "SLH-DSA" ∷ []

abbrev classical_tokens : List String
classical_tokens = "RSA_" ∷ "ECDSA_" ∷ "ECDH_" ∷ "EC_KEY_" ∷ []

abbrev weak_tokens : List String
weak_tokens = "MD5" ∷ "SHA1" ∷ "SHA-1" ∷ []

-- `classify_runtime_signal`
unfoldable pub classify_runtime_signal : String → String → String → Label
unfolding contains_any starts_with upper
classify_runtime_signal method library evidence_type =
    let searchable = upper (append method (append " " library)) in
    if contains_any pqc_tokens searchable
    then label "PQC/runtime-selected" "INFO" "pqc_or_pqc_candidate"
    else if contains_any classical_tokens searchable
    then label "classical-public-key" (if_called evidence_type "HIGH" "MEDIUM") "quantum_vulnerable"
    else if contains_any weak_tokens searchable
    then label "weak-hash" "HIGH" "classically_weak"
    else if starts_with "SSL_" method
    then label "TLS/runtime-selected" (if_called evidence_type "MEDIUM" "INFO") "unknown"
    else label "runtime-selected" (if_called evidence_type "MEDIUM" "INFO") "unknown"

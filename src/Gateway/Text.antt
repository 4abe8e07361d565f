-- ===== src/Gateway/Text.antt =====
-- Texts that the renderer of gateway/renderer.py and its adapters compose.
use Prim.Native.Nat.{◌/◌, ◌%◌, ◌-◌}
use Prim.Native.Char.{Char, code}
use Prim.Native.String.{char_at}
use pq_migration_gateway.Prelude.{
  ℕ, zero, suc, ◌+◌, String, List, [], ◌∷◌, append, if◌then◌else◌, eqb, ltb,
}

-- The pieces of an f-string, one after the other.
unfoldable pub concat : List String → String
concat [] = ""
concat (s ∷ ss) = append s (concat ss)

-- `separator.join(texts)`
unfoldable pub join : String → List String → String
join separator [] = ""
join separator (s ∷ []) = s
join separator (s ∷ t ∷ ts) = append s (append separator (join separator (t ∷ ts)))

-- `f"{n}"`, for numbers of at most `fuel` digits; a port has at most five.
digits : ℕ → ℕ → String
digits zero n = ""
digits (suc fuel) n =
    let last = String.◌∷◌ (char_at "0123456789" (n % 10)) "" in
    if ltb n 10 then last else append (digits fuel (n / 10)) last

unfoldable pub port_text : ℕ → String
unfolding digits
port_text = digits 5

-- `s.replace("-", "_")`
unfoldable pub underscores : String → String
underscores String.[] = ""
underscores (String.◌∷◌ c s) =
    String.◌∷◌ (if eqb (code c) b'-' then char_at "_" 0 else c) (underscores s)

-- `s.rstrip("/")`
unfoldable pub without_slashes : String → String
without_slashes String.[] = ""
without_slashes (String.◌∷◌ c s) = elim (without_slashes s) [
  | String.[] ↦ if eqb (code c) b'/' then "" else String.◌∷◌ c ""
  | String.◌∷◌ d t ↦ String.◌∷◌ c (String.◌∷◌ d t)
]

hex_digit : ℕ → String
hex_digit n = String.◌∷◌ (char_at "0123456789abcdef" (n % 16)) ""

-- `\uXXXX`
unicode : ℕ → String
unfolding hex_digit
unicode n = append "\\u" (
    append (hex_digit (n / 4096))
      (append (hex_digit (n / 256)) (append (hex_digit (n / 16)) (hex_digit n))))

-- The escapes of `json.dumps`, with a pair of surrogates above U+FFFF.
json_char : Char → String
unfolding unicode
json_char c =
    let n = code c in
    if eqb n 34
    then "\\\""
    else if eqb n 92
    then "\\\\"
    else if eqb n 10
    then "\\n"
    else if eqb n 13
    then "\\r"
    else if eqb n 9
    then "\\t"
    else if eqb n 8
    then "\\b"
    else if eqb n 12
    then "\\f"
    else if ltb n 32
    then unicode n
    else if ltb n 127
    then String.◌∷◌ c ""
    else if ltb n 65536
    then unicode n
    else append (unicode (55296 + (n - 65536) / 1024)) (unicode (56320 + (n - 65536) % 1024))

json_chars : String → String
unfolding json_char
json_chars String.[] = ""
json_chars (String.◌∷◌ c s) = append (json_char c) (json_chars s)

-- `json.dumps(s)` for a text
unfoldable pub json_string : String → String
unfolding json_chars
json_string s = append "\"" (append (json_chars s) "\"")

-- ===== src/Sanitize.antt =====
-- internal/gateway/json_sanitize.go: repairs escapes that a model's JSON output may not contain. A
-- text is its list of bytes.
pub mod Escapes
use maybe_dont.Prelude.{
  ℕ, Bool, true, false, ◌&&◌, ◌||◌, not, List, [], ◌∷◌, Option, none, some, eqb, if◌then◌else◌,
}

abbrev pub quote : ℕ
quote = 34

abbrev pub backslash : ℕ
backslash = 92

unfoldable pub is_valid_json_escape : ℕ → Bool
is_valid_json_escape c =
    eqb c quote
    || (eqb c backslash
        || (eqb c b'/'
            || (eqb c b'b'
                || (eqb c b'f' || (eqb c b'n' || (eqb c b'r' || (eqb c b't' || eqb c b'u')))))))

abbrev pub contains_backslash : List ℕ → Bool
contains_backslash [] = false
contains_backslash (c ∷ cs) = eqb c backslash || contains_backslash cs

-- `i == 0 || data[i-1] != '\\'`
abbrev pub not_escaped : Option ℕ → Bool
not_escaped none = true
not_escaped (some p) = not (eqb p backslash)

-- The bytes that a backslash and the byte behind it become.
abbrev pub escape_pair : ℕ → List ℕ → List ℕ
escape_pair n rest =
    if is_valid_json_escape n then backslash ∷ n ∷ rest else backslash ∷ backslash ∷ n ∷ rest

-- The loop: whether the position is inside a string, and the byte before it.
unfoldable pub sanitize_loop : Bool → Option ℕ → List ℕ → List ℕ
unfolding is_valid_json_escape
sanitize_loop in_string prev [] = []
sanitize_loop in_string prev (c ∷ []) = c ∷ []
sanitize_loop in_string prev (c ∷ n ∷ rest) = elim (eqb c quote && not_escaped prev) [
  | true ↦ c ∷ sanitize_loop (not in_string) (some c) (n ∷ rest)
  | false ↦ elim (in_string && eqb c backslash) [
    | true ↦ escape_pair n (sanitize_loop in_string (some n) rest)
    | false ↦ c ∷ sanitize_loop in_string (some c) (n ∷ rest)
  ]
]

unfoldable pub sanitize_json_escapes : List ℕ → List ℕ
unfolding sanitize_loop
sanitize_json_escapes s = if contains_backslash s then sanitize_loop false none s else s

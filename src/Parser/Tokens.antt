-- ===== src/Parser/Tokens.antt =====
-- parser.c: `parse_tokenize_string`, over `strtok_r` of the C library.
pub mod Words
use rids.Prelude.{
  ℕ, zero, suc, ◌+◌, Bool, true, false, not, ◌&&◌, ◌||◌, List, [], ◌∷◌, ◌++◌, Option, none, some,
  ltb, leb, ◌==◌, if◌then◌else◌, length, Outcome, ok, err, einval, e2big,
}
use rids.Libc.{skip_white_spaces, isspace}

-- The characters of PARSE_DELIMITER are those of `isspace`: the blank and \f \n \r \t \v.
pub is_delimiter : ℕ → Bool
is_delimiter c = c == 32 || c == 12 || c == 10 || c == 13 || c == 9 || c == 11

pub skip_delimiters : List ℕ → List ℕ
unfolding is_delimiter
skip_delimiters [] = []
skip_delimiters (c ∷ p) = if is_delimiter c then skip_delimiters p else c ∷ p

-- The characters up to the next delimiter, and what is left behind that delimiter.
pub split_token : List ℕ → List ℕ × List ℕ
unfolding is_delimiter
split_token [] = ([], [])
split_token (c ∷ p) =
    let (token, rest) = split_token p in if is_delimiter c then ([], p) else (c ∷ token, rest)

abbrev token_at : List ℕ → Option (List ℕ × List ℕ)
token_at [] = none
token_at (c ∷ p) = some (split_token (c ∷ p))

pub strtok_r : List ℕ → Option (List ℕ × List ℕ)
unfolding skip_delimiters split_token
strtok_r p = token_at (skip_delimiters p)

-- The loop that fills tokens[], at most `n` more of them, and where the string then stands.
pub collect : ℕ → List ℕ → List (List ℕ) × List ℕ
unfolding strtok_r
collect zero p = ([], p)
collect (suc n) p = elim (strtok_r p) [
  | none ↦ ([], [])
  | some (token, rest) ↦ let (tokens, q) = collect n rest in (token ∷ tokens, q)
]

abbrev has_token : Option (List ℕ × List ℕ) → Bool
has_token none = false
has_token (some t) = true

-- `none` for a null `string`, `false` for a null `tokens`. The tokens stored are the result, and
-- `*n_tokens` their number.
pub parse_tokenize_string : Option (List ℕ) → Bool → ℕ → Outcome (List (List ℕ))
unfolding collect
parse_tokenize_string none tokens n_tokens = err einval
parse_tokenize_string (some string) tokens n_tokens =
    if not tokens || ltb n_tokens 1
    then err einval
    else let (stored, rest) = collect n_tokens string in
      if (length stored == n_tokens) && has_token (strtok_r rest) then err e2big else ok stored

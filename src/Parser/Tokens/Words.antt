-- ===== src/Parser/Tokens/Words.antt =====
-- `parse_tokenize_string` against the words of the string.
use rids.Prelude.{
  einval, Option, Outcome, ℕ, zero, suc, ◌+◌, ◌≤◌, ◌<◌, ◌≡◌, refl, ap, sym, ◌∙◌, Bool, true, false,
  not, List, [], ◌∷◌, ◌++◌, leb, length-append, none, some, ◌⊎◌, inl, inr, arith, if◌then◌else◌,
  length, Bool-cases, ok, err, e2big,
}
use mathlib.Core.List.{append-nil}
use rids.Libc.{isspace}
use rids.Parser.Tokens.{
  is_delimiter, skip_delimiters, split_token, strtok_r, collect, parse_tokenize_string,
}

abbrev begins_word : List ℕ → Bool
begins_word [] = false
begins_word (c ∷ p) = not (isspace c)

-- A character in front of a string with these words, of which the first begins at once or not.
abbrev push : ℕ → Bool → List (List ℕ) → List (List ℕ)
push c true (w ∷ ws) = (c ∷ w) ∷ ws
push c _ ws = (c ∷ []) ∷ ws

-- The maximal runs of characters that are no white space.
unfoldable pub words : List ℕ → List (List ℕ)
words [] = []
words (c ∷ p) = let rest = words p in if isspace c then rest else push c (begins_word p) rest

delimiter-isspace : (c : ℕ) → is_delimiter c ≡ isspace c
unfolding is_delimiter
delimiter-isspace c = ground arith

words-skip : (p : List ℕ) → words (skip_delimiters p) ≡ words p
unfolding words skip_delimiters
words-skip [] = refl
words-skip (c ∷ p) = ground (arith, delimiter-isspace c, words-skip p)

words-split :
    (c : ℕ) (p : List ℕ)
    → isspace c ≡ false
    → words (c ∷ p) ≡ (split_token (c ∷ p)).0 ∷ words (split_token (c ∷ p)).1
unfolding words split_token
words-split c [] h = ground (arith, delimiter-isspace c)
words-split c (d ∷ p) h = elim (Bool-cases (isspace d)) [
  | inl e ↦ ground (arith, delimiter-isspace c, delimiter-isspace d)
  | inr e ↦ ground (arith, delimiter-isspace c, delimiter-isspace d, words-split d p e)
]

skip_stops :
    (p : List ℕ)
    → (skip_delimiters p ≡ [])
      ⊎ ((c : ℕ) × (q : List ℕ) × (skip_delimiters p ≡ c ∷ q) × (isspace c ≡ false))
unfolding skip_delimiters
skip_stops [] = inl refl
skip_stops (c ∷ p) = elim (Bool-cases (isspace c)) [
  | inl e ↦ ground (arith, delimiter-isspace c, skip_stops p)
  | inr e ↦ inr (c, p, ground (arith, delimiter-isspace c), e)
]

strtok-words :
    (p : List ℕ)
    → ((strtok_r p ≡ none) × (words p ≡ []))
      ⊎ ((t : List ℕ) × (rest : List ℕ) × (strtok_r p ≡ some (t, rest))
          × (words p ≡ t ∷ words rest))
unfolding strtok_r words
strtok-words p = elim (skip_stops p) [
  | inl e ↦ inl (rw (e, strtok_r), sym (words-skip p) ∙ ap words e)
  | inr (c, q, e, h) ↦ inr (
    (split_token (c ∷ q)).0,
    (split_token (c ∷ q)).1,
    rw (e, strtok_r),
    sym (words-skip p) ∙ ap words e ∙ words-split c q h,
  )
]

-- The loop stops at the last word, or with `n` words stored and the others left.
collect-words :
    (n : ℕ) (p : List ℕ)
    → ((length (collect n p).0 ≡ n) × (words p ≡ (collect n p).0 ++ words (collect n p).1))
      ⊎ ((length (collect n p).0 < n) × (words p ≡ (collect n p).0))
unfolding collect
collect-words zero p = inl (refl, refl)
collect-words (suc n) p = elim (strtok-words p) [
  | inl (e, w) ↦ rw (e, collect) (inr (omega arith, w))
  | inr (t, rest, e, w) ↦
      rw (e, collect)
        (elim (collect-words n rest) [
          | inl (l, w') ↦ inl (ap suc l, w ∙ ap (λ ws. t ∷ ws) w')
          | inr (l, w') ↦ inr (omega arith, w ∙ ap (λ ws. t ∷ ws) w')
        ])
]

-- A string that is given, with tokens and room for one.
words_of_string :
    (string : List ℕ) (n : ℕ)
    → 1 ≤ n
    → parse_tokenize_string (some string) true n
      ≡ (if leb (length (words string)) n then ok (words string) else err e2big)
unfolding parse_tokenize_string
words_of_string s n h = elim (collect-words n s) [
  | inr (l, w) ↦ ground (arith, ap length w)
  | inl (l, w) ↦ elim (strtok-words (collect n s).1) [
    | inl (e, w') ↦
        let all : words s ≡ (collect n s).0 =
          w ∙ ap (λ r. (collect n s).0 ++ r) w' ∙ append-nil (collect n s).0 in
        ground (arith, ap length all)
    | inr (t, rest, e, w') ↦
        let more : length (words s) ≡ suc (n + length (words rest)) = omega (
          arith,
          ap length (w ∙ ap (λ r. (collect n s).0 ++ r) w'),
          length-append (collect n s).0 (t ∷ words rest),
        ) in
        ground arith
  ]
]

-- What is to come out: -EINVAL for a null pointer or without room, -E2BIG for too many words, else the
-- words.
abbrev pub tokens_of : Option (List ℕ) → Bool → ℕ → Outcome (List (List ℕ))
tokens_of none tokens n = err einval
tokens_of (some string) false n = err einval
tokens_of (some string) true zero = err einval
tokens_of (some string) true (suc n) =
    if leb (length (words string)) (suc n) then ok (words string) else err e2big

-- With room for at least one token, the tokens stored are the words of the string, all of them and
-- in order, if they fit; if they are too many, the result is -E2BIG. A null pointer for the string or
-- for the tokens, or no room, is -EINVAL.
pub parse_tokenize_string-words :
    (string : Option (List ℕ)) (tokens : Bool) (n : ℕ)
    → parse_tokenize_string string tokens n ≡ tokens_of string tokens n
unfolding parse_tokenize_string
parse_tokenize_string-words none tokens n = refl
parse_tokenize_string-words (some string) false n = refl
parse_tokenize_string-words (some string) true zero = refl
parse_tokenize_string-words (some string) true (suc n) =
    words_of_string string (suc n) (omega arith)

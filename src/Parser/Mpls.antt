-- ===== src/Parser/Mpls.antt =====
-- parser.c: `parse_mpls_labels`.
pub mod Labels
use rids.Prelude.{
  ℕ, zero, suc, ◌%◌, ◌^◌, Bool, true, false, List, [], ◌∷◌, Option, none, some, ◌==◌, if◌then◌else◌,
  codes, str_eq, drop, Outcome, ok, err, failure, ◌>>=◌,
}
use rids.Libc.{char_at, strtol}

-- Where the digits of the next label begin: behind a ':', but for the first label.
abbrev pub label_start : Bool → List ℕ → Option (List ℕ)
label_start true string = some string
label_start false string = if char_at string 0 == b':' then some (drop 1 string) else none

-- The loop, with the room left in labels[] (`n_max_labels - count`) and whether `count` is 0.
pub read_labels : ℕ → Bool → List ℕ → Outcome (List ℕ)
read_labels room first [] = ok []
read_labels zero first (c ∷ string) = err failure
read_labels (suc room) first (c ∷ string) = elim (label_start first (c ∷ string)) [
  | none ↦ err failure
  | some start ↦ elim (strtol 10 start) [
    | none ↦ err failure
    | some value ↦ do
      labels ← read_labels room false value.end
      ok ((value.value % 2 ^ 32) ∷ labels)
  ]
]

-- The labels stored are the result, and `*n_labels` their number.
pub parse_mpls_labels : List ℕ → ℕ → Outcome (List ℕ)
unfolding read_labels str_eq
parse_mpls_labels string n_labels =
    if str_eq string (codes "<void>") then ok [] else read_labels n_labels true string

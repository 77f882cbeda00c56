-- ===== src/Parser/Mpls/Labels.antt =====
-- What `parse_mpls_labels` makes of numbers that are joined by ':'.
use rids.Prelude.{
  ℕ, zero, suc, ◌%◌, ◌^◌, ◌≤◌, ◌<◌, ◌≡◌, refl, ◌∙◌, ◌≢◌, Bool, true, false, List, [], ◌∷◌, ◌++◌,
  map, some, arith, leb, if◌then◌else◌, length, All, Bool-cases, Option-cases, inl, inr, codes,
  str_eq, Outcome, ok, err, failure, ◌>>=◌,
}
use mathlib.Core.List.{tail}
use rids.Libc.{char_at, digit_value, strtol, signed_conversion, Conversion}
use rids.Libc.Scan.{IsDigits, number}
use rids.Libc.Conversions.{strtol-number}
use rids.Parser.Mpls.{label_start, read_labels, parse_mpls_labels}

-- Each label is written with at least one digit.
abbrev pub AreNumbers : List (List ℕ) → Type 0
AreNumbers [] = Unit {0}
AreNumbers (ds ∷ dss) = IsDigits 10 ds × (ds ≢ []) × AreNumbers dss

-- The labels behind the first, each with its ':'.
unfoldable pub further : List (List ℕ) → List ℕ
further [] = []
further (ds ∷ dss) = b':' ∷ (ds ++ further dss)

unfoldable pub joined : List (List ℕ) → List ℕ
joined [] = []
joined (ds ∷ dss) = ds ++ further dss

-- The number as `strtol` returns it, cut to 32 bits.
abbrev pub label_of : List ℕ → ℕ
label_of ds = (signed_conversion false (number 10 0 ds, [])).value % 2 ^ 32

further_stops : (dss : List (List ℕ)) → 10 ≤ digit_value (char_at (further dss) 0)
unfolding further
further_stops [] = omega arith
further_stops (ds ∷ dss) = omega arith

abbrev pub limited : ℕ → List (List ℕ) → Outcome (List ℕ)
limited room dss = if leb (length dss) room then ok (map label_of dss) else err failure

signed_end :
    (m : ℕ) (rest : List ℕ)
    → ((signed_conversion false (m, rest)).end ≡ rest)
      × ((signed_conversion false (m, rest)).value ≡ (signed_conversion false (m, [])).value)
signed_end m rest = ground arith

-- One round of the loop that goes well.
read_labels_round :
    (room : ℕ) (first : Bool) (c : ℕ) (string start : List ℕ) (v : Conversion)
    → label_start first (c ∷ string) ≡ some start
    → strtol 10 start ≡ some v
    → read_labels (suc room) first (c ∷ string)
      ≡ (read_labels room false v.end >>= λ labels. ok ((v.value % 2 ^ 32) ∷ labels))
unfolding read_labels
read_labels_round room first c string start v e e' = ground arith

limited_round :
    (room : ℕ) (ds : List ℕ) (dss : List (List ℕ))
    → (limited room dss >>= λ labels. ok (label_of ds ∷ labels)) ≡ limited (suc room) (ds ∷ dss)
limited_round room ds dss = ground arith

read_label :
    (room : ℕ) (first : Bool) (c : ℕ) (string ds : List ℕ) (dss : List (List ℕ))
    → IsDigits 10 ds
    → ds ≢ []
    → label_start first (c ∷ string) ≡ some (ds ++ further dss)
    → read_labels room false (further dss) ≡ limited room dss
    → read_labels (suc room) first (c ∷ string) ≡ limited (suc room) (ds ∷ dss)
read_label room first c string ds dss h n e ih =
    let v = signed_conversion false (number 10 0 ds, further dss) in
    let (end, value) = signed_end (number 10 0 ds) (further dss) in
    read_labels_round room first c string (ds ++ further dss) v e
      (strtol-number ds (further dss) h n (further_stops dss))
    ∙ rw (end, value, ih) (limited_round room ds dss)

read_labels-further :
    (room : ℕ) (dss : List (List ℕ))
    → AreNumbers dss
    → read_labels room false (further dss) ≡ limited room dss
unfolding read_labels further
read_labels-further zero [] h = refl
read_labels-further (suc room) [] h = ground arith
read_labels-further zero (ds ∷ dss) h = ground arith
read_labels-further (suc room) (ds ∷ dss) h =
    read_label room false b':' (ds ++ further dss) ds dss h.0 h.1 refl
      (read_labels-further room dss h.2)

-- A number does not begin like "<void>".
not_void :
    (ds rest : List ℕ) → IsDigits 10 ds → ds ≢ [] → str_eq (ds ++ rest) (codes "<void>") ≡ false
unfolding str_eq
not_void [] rest h n = absurd (n refl)
not_void (d ∷ ds) rest h n = ground arith

-- Decimal numbers that are joined by ':' are stored in order, each cut to 32 bits, if labels[] has
-- room for all of them; the empty string stores none. If there are too many, the result is -1.
pub parse_mpls_labels-joined :
    (n_labels : ℕ) (dss : List (List ℕ))
    → AreNumbers dss
    → parse_mpls_labels (joined dss) n_labels ≡ limited n_labels dss
unfolding parse_mpls_labels joined
parse_mpls_labels-joined zero [] h = refl
parse_mpls_labels-joined (suc n) [] h = ground arith
parse_mpls_labels-joined n ([] ∷ dss) h = absurd (h.1 refl)
parse_mpls_labels-joined zero ((d ∷ ds) ∷ dss) h =
    rw (not_void (d ∷ ds) (further dss) h.0 h.1) (ground arith)
parse_mpls_labels-joined (suc n) ((d ∷ ds) ∷ dss) h = rw (not_void (d ∷ ds) (further dss) h.0 h.1) (
    read_label n true d (ds ++ further dss) (d ∷ ds) dss h.0 h.1 refl
      (read_labels-further n dss h.2))

read_labels_bounds :
    (room : ℕ) (first : Bool) (string : List ℕ) (labels : List ℕ)
    → read_labels room first string ≡ ok labels
    → (length labels ≤ room) × All (λ l. l < 2 ^ 32) labels
unfolding read_labels
read_labels_bounds zero first [] [] h = (omega arith, tt)
read_labels_bounds zero first [] (l ∷ labels) h = absurd (ground arith)
read_labels_bounds (suc room) first [] [] h = (omega arith, tt)
read_labels_bounds (suc room) first [] (l ∷ labels) h = absurd (ground arith)
read_labels_bounds zero first (c ∷ string) labels h = absurd (ground arith)
read_labels_bounds (suc room) first (c ∷ string) labels h =
    elim (Option-cases (label_start first (c ∷ string))) [
      | inl e ↦ absurd (ground arith)
      | inr (start, e) ↦ elim (Option-cases (strtol 10 start)) [
        | inl e' ↦ absurd (ground arith)
        | inr (v, e') ↦ ground (arith, read_labels_bounds room false v.end (tail labels))
      ]
    ]

-- Whatever the string, no label is stored past the end of labels[], and each has 32 bits.
pub parse_mpls_labels_bounds :
    (string : List ℕ) (n_labels : ℕ) {labels : List ℕ}
    → parse_mpls_labels string n_labels ≡ ok labels
    → (length labels ≤ n_labels) × All (λ l. l < 2 ^ 32) labels
unfolding parse_mpls_labels
parse_mpls_labels_bounds string n {labels} h = elim (Bool-cases (str_eq string (codes "<void>"))) [
  | inl e ↦ read_labels_bounds n true [] labels (ground arith)
  | inr e ↦ read_labels_bounds n true string labels (ground arith)
]

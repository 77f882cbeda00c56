-- ===== src/Parser/CpuCore/Rounds.antt =====
-- The rounds of the loop of `parse_cpu_core`: what each takes, and that they end.
use rids.Prelude.{
  ℕ, zero, suc, ◌+◌, ◌≤◌, ◌<◌, ◌≡◌, refl, sym, ap, ◌∙◌, ◌≢◌, false, ◌&&◌, ◌||◌, List, [], ◌∷◌, ◌++◌,
  some, arith, ◌==◌, length, Bool-cases, Option-cases, ◌⊎◌, inl, inr, ok, err, einval,
}
use mathlib.Core.List.{append-nil}
use rids.Libc.{isdigit, digit_value, char_at, skip_white_spaces, strtol, signed_conversion}
use rids.Libc.Scan.{IsDigits, number}
use rids.Libc.Conversions.{strtol-number, number-lt, tenfold}
use rids.Parser.CpuCore.{
  Run, returns, overrun, Parsed, Part, core, part_at, read_num, num_value, store, bad_length,
  params, parts, nothing_parsed, parse_cpu_core,
}

-- The digits are split off the string.
read_num-length :
    (room : ℕ) (p num rest : List ℕ)
    → read_num room p ≡ some (num, rest)
    → length p ≡ length num + length rest
unfolding read_num
read_num-length zero [] num rest h = ground arith
read_num-length (suc room) [] num rest h = ground arith
read_num-length zero (c ∷ p) num rest h = absurd (ground arith)
read_num-length (suc room) (c ∷ p) num rest h = elim (Bool-cases (isdigit c)) [
  | inr e ↦ ground arith
  | inl e ↦ elim (Option-cases (read_num room p)) [
    | inl e' ↦ absurd (ground arith)
    | inr ((num', rest'), e') ↦ ground (arith, read_num-length room p num' rest' e')
  ]
]

pub read_num-digits :
    (room : ℕ) (ds rest : List ℕ)
    → IsDigits 10 ds
    → length ds < room
    → 10 ≤ digit_value (char_at rest 0)
    → read_num room (ds ++ rest) ≡ some (ds, rest)
unfolding read_num
read_num-digits zero ds rest h l stop = absurd (omega arith)
read_num-digits (suc room) [] [] h l stop = refl
read_num-digits (suc room) [] (c ∷ rest) h l stop = ground arith
read_num-digits (suc room) (d ∷ ds) rest h l stop = ground (arith, read_num-digits room ds rest h.1)

-- A number of at most seven digits is read as it stands.
pub num_value-number :
    (ds : List ℕ) → IsDigits 10 ds → ds ≢ [] → length ds < 8 → num_value ds ≡ number 10 0 ds
num_value-number ds h n l =
    let small : number 10 0 ds < tenfold 7 1 = number-lt 0 7 ds h (omega arith) in
    let read : strtol 10 ds ≡ some (signed_conversion false (number 10 0 ds, [])) =
      ap (strtol 10) (sym (append-nil ds)) ∙ strtol-number ds [] h n (omega arith) in
    rw (read, num_value) (ground arith)

-- A part that is found stands behind its letter, or is the core and has none.
part_at_start :
    (st : Parsed) (type : ℕ) (next : List ℕ) (part : Part) (st' : Parsed) (start : List ℕ)
    → part_at st type next ≡ some (part, st', start)
    → (start ≡ next) ⊎ ((start ≡ type ∷ next) × (part ≡ core))
unfolding part_at
part_at_start st type next part st' start h = elim (Bool-cases (type == b's' || type == b'S')) [
  | inl a ↦ inl (ground arith)
  | inr a ↦ elim (Bool-cases (type == b'c' || type == b'C')) [
    | inl b ↦ inl (ground arith)
    | inr b ↦ elim (Bool-cases (type == b'h' || type == b'H')) [
      | inl c ↦ inl (ground arith)
      | inr c ↦ inr (ground arith)
    ]
  ]
]

-- Each round of the loop takes at least one character.
round_consumes :
    (st st' : Parsed) (type : ℕ) (next start num rest : List ℕ) (part : Part)
    → part_at st type next ≡ some (part, st', start)
    → read_num 8 start ≡ some (num, rest)
    → bad_length part (length num) ≡ false
    → length rest < suc (length next)
round_consumes st st' type next start num rest part e e' b =
    elim (part_at_start st type next part st' start e) [
      | inl s ↦ omega (arith, read_num-length 8 start num rest e', ap length s)
      | inr (s, p) ↦ ground (arith, read_num-length 8 start num rest e', ap length s)
    ]

parts_total :
    (fuel : ℕ) (st : Parsed) (p : List ℕ) → length p ≤ fuel → (r : Run) × (parts fuel st p ≡ some r)
unfolding parts
parts_total zero st [] l = (returns (ok (params st)), refl)
parts_total (suc fuel) st [] l = (returns (ok (params st)), refl)
parts_total zero st (c ∷ p) l = absurd (omega arith)
parts_total (suc fuel) st (type ∷ next) l =
    elim (Bool-cases (st.s_parsed && st.c_parsed && st.h_parsed)) [
      | inl e ↦ (returns (err einval), rw (e, parts))
      | inr e ↦ elim (Option-cases (part_at st type next)) [
        | inl e' ↦ (returns (err einval), ground arith)
        | inr ((part, st', start), e') ↦ elim (Option-cases (read_num 8 start)) [
          | inl r ↦ (returns (err einval), ground arith)
          | inr ((num, rest), r) ↦ elim (Bool-cases (bad_length part (length num))) [
            | inl b ↦ (returns (err einval), ground arith)
            | inr b ↦ elim (Bool-cases (length num == 8)) [
              | inl o ↦ (overrun, ground arith)
              | inr o ↦
                  let shorter = round_consumes st st' type next start num rest part e' r b in
                  let (run, t) =
                    parts_total fuel (store part (num_value num) st') rest (omega arith) in
                  (run, ground arith)
            ]
          ]
        ]
      ]
    ]

-- The loop of `parse_cpu_core` ends on every string.
pub parse_cpu_core_total : (entry : List ℕ) → (r : Run) × (parse_cpu_core entry ≡ some r)
unfolding parse_cpu_core
parse_cpu_core_total entry =
    let next = skip_white_spaces entry in
    parts_total (length next) nothing_parsed next (omega arith)

-- ===== src/Parser/Numbers/Grammar.antt =====
-- The strings that `parser_read_uint64` accepts, and the number that each stands for.
use rids.Prelude.{
  ℕ, ◌*◌, ◌%◌, ◌^◌, ◌≤◌, ◌<◌, ◌≡◌, refl, ap, sym, ◌∙◌, ◌≢◌, ◌↔◌, true, List, [], ◌∷◌, ◌++◌, arith,
  ltb, ◌==◌, if◌then◌else◌, Bool-cases, inl, inr, ok, err, einval, some,
}
use rids.Libc.{at_end, char_at, isdigit, digit_value, skip_white_spaces, scan, strtoul, ulong_max}
use rids.Libc.Scan.{
  IsSpaces, IsDigits, number, skip-append, skip-spaces, skip_stop, at_end-skip, skip_split,
  scan-append, scan_split,
}
use mathlib.Core.List.{append-nil}
use rids.Parser.Numbers.Bounds.{decimal, wide_reader-Fits}
use rids.Parser.Numbers.{finish, scale, parser_read_uint64}

-- The unit that may follow the digits.
pub data Magnitude : Type 0 where
  plain kilo_small kilo mega giga tera : Magnitude

abbrev pub letter : Magnitude → List ℕ
letter plain = []
letter kilo_small = b'k' ∷ []
letter kilo = b'K' ∷ []
letter mega = b'M' ∷ []
letter giga = b'G' ∷ []
letter tera = b'T' ∷ []

abbrev pub factor : Magnitude → ℕ
factor plain = 1
factor kilo_small = 1024
factor kilo = 1024
factor mega = 1024 ^ 2
factor giga = 1024 ^ 3
factor tera = 1024 ^ 4

-- What `strtoul` makes of digits: the number, or ULONG_MAX where it does not fit.
abbrev pub saturated : ℕ → ℕ
saturated n = if ltb ulong_max n then ulong_max else n

-- spaces, digits, unit, spaces
abbrev pub written : List ℕ → List ℕ → Magnitude → List ℕ → List ℕ
written ws ds m ws' = ws ++ (ds ++ (letter m ++ ws'))

-- A string is well formed with value `v`.
pub record Reads (s : List ℕ) (v : ℕ) : Type 0 where
  pub before : List ℕ
  pub digits : List ℕ
  pub unit : Magnitude
  pub behind : List ℕ
  pub form : s ≡ written before digits unit behind
  pub spaces_before : IsSpaces before
  pub are_digits : IsDigits 10 digits
  pub nonempty : digits ≢ []
  pub spaces_behind : IsSpaces behind
  pub value : v ≡ saturated (number 10 0 digits) * factor unit % 2 ^ 64

scale-letter :
    (n : ℕ) (m : Magnitude) (ws : List ℕ)
    → IsSpaces ws
    → finish (scale (saturated n) (letter m ++ ws)) ≡ ok (saturated n * factor m % 2 ^ 64)
scale-letter n plain [] h = ground (arith, skip-spaces [] tt)
scale-letter n plain (c ∷ ws) h = ground (arith, skip-spaces (c ∷ ws) h)
scale-letter n kilo_small ws h = ground (arith, skip-spaces ws h)
scale-letter n kilo ws h = ground (arith, skip-spaces ws h)
scale-letter n mega ws h = ground (arith, skip-spaces ws h)
scale-letter n giga ws h = ground (arith, skip-spaces ws h)
scale-letter n tera ws h = ground (arith, skip-spaces ws h)

letter_stops :
    (m : Magnitude) (ws : List ℕ) → IsSpaces ws → 10 ≤ digit_value (char_at (letter m ++ ws) 0)
letter_stops plain [] h = omega arith
letter_stops plain (c ∷ ws) h = ground arith
letter_stops _ ws h = omega arith

-- A digit of base ten, by its two descriptions.
isdigit_iff : (c : ℕ) → digit_value c < 10 → isdigit c ≡ true
isdigit_iff c h = ground arith

strtoul-number :
    (ds rest : List ℕ)
    → IsDigits 10 ds
    → ds ≢ []
    → 10 ≤ digit_value (char_at rest 0)
    → strtoul 10 (ds ++ rest)
      ≡ some (record {
        value = saturated (number 10 0 ds);
        end = rest;
        range = ltb ulong_max (number 10 0 ds);
      })
unfolding strtoul skip_white_spaces
strtoul-number [] rest h n stop = absurd (n refl)
strtoul-number (d ∷ ds) rest h n stop = ground (arith, scan-append 10 0 (d ∷ ds) rest h stop)

skip-digits :
    (ws ds rest : List ℕ)
    → IsSpaces ws
    → IsDigits 10 ds
    → ds ≢ []
    → skip_white_spaces (ws ++ (ds ++ rest)) ≡ ds ++ rest
skip-digits ws [] rest h k n = absurd (n refl)
skip-digits ws (d ∷ ds) rest h k n =
    skip-append ws (d ∷ ds ++ rest) h ∙ skip_stop (d ∷ ds ++ rest) (ground arith)

starts_with_digit :
    (ds rest : List ℕ) → IsDigits 10 ds → ds ≢ [] → isdigit (char_at (ds ++ rest) 0) ≡ true
starts_with_digit [] rest k n = absurd (n refl)
starts_with_digit (d ∷ ds) rest k n = isdigit_iff d k.0

read_written :
    (ws ds : List ℕ) (m : Magnitude) (ws' : List ℕ)
    → IsSpaces ws
    → IsDigits 10 ds
    → ds ≢ []
    → IsSpaces ws'
    → parser_read_uint64 (written ws ds m ws') ≡ ok (saturated (number 10 0 ds) * factor m % 2 ^ 64)
unfolding parser_read_uint64
read_written ws ds m ws' h k n h' =
    rw
      (
        skip-digits ws ds (letter m ++ ws') h k n,
        starts_with_digit ds (letter m ++ ws') k n,
        strtoul-number ds (letter m ++ ws') k n (letter_stops m ws' h'),
      )
      (scale-letter (number 10 0 ds) m ws' h')

pub read-Reads : {s : List ℕ} {v : ℕ} → Reads s v → parser_read_uint64 s ≡ ok v
read-Reads r =
    ap parser_read_uint64 r.form
    ∙ read_written r.before r.digits r.unit r.behind r.spaces_before r.are_digits r.nonempty
        r.spaces_behind
    ∙ ap ok (sym r.value)

finish_inv : (n : ℕ) (p : List ℕ) (v : ℕ) → finish (n, p) ≡ ok v → IsSpaces p × (v ≡ n)
finish_inv n p v h = elim (Bool-cases (at_end (skip_white_spaces p))) [
  | inl e ↦ (at_end-skip p e, ground arith)
  | inr e ↦ absurd (ground arith)
]

-- What an accepted tail is: a unit and spaces.
abbrev Tail : ℕ → List ℕ → ℕ → Type 0
Tail n p v =
    (m : Magnitude) × (ws : List ℕ) × (p ≡ letter m ++ ws)
    × IsSpaces ws
    × (v ≡ n * factor m % 2 ^ 64)

scale_inv : (n : ℕ) (p : List ℕ) (v : ℕ) → n ≤ ulong_max → finish (scale n p) ≡ ok v → Tail n p v
scale_inv n [] v b h = (plain, [], refl, tt, (finish_inv n [] v h).1 ∙ omega arith)
scale_inv n (c ∷ p) v b h = elim (Bool-cases (c == b'T')) [
  | inl t ↦
      let (spaces, value) = finish_inv (n * factor tera % 2 ^ 64) p v (ground arith) in
      (tera, p, ground arith, spaces, value)
  | inr t ↦ elim (Bool-cases (c == b'G')) [
    | inl g ↦
        let (spaces, value) = finish_inv (n * factor giga % 2 ^ 64) p v (ground arith) in
        (giga, p, ground arith, spaces, value)
    | inr g ↦ elim (Bool-cases (c == b'M')) [
      | inl m ↦
          let (spaces, value) = finish_inv (n * factor mega % 2 ^ 64) p v (ground arith) in
          (mega, p, ground arith, spaces, value)
      | inr m ↦ elim (Bool-cases (c == b'k')) [
        | inl k ↦
            let (spaces, value) = finish_inv (n * 1024 % 2 ^ 64) p v (ground arith) in
            (kilo_small, p, ground arith, spaces, value)
        | inr k ↦ elim (Bool-cases (c == b'K')) [
          | inl l ↦
              let (spaces, value) = finish_inv (n * 1024 % 2 ^ 64) p v (ground arith) in
              (kilo, p, ground arith, spaces, value)
          | inr l ↦
              let (spaces, value) = finish_inv n (c ∷ p) v (ground arith) in
              (plain, c ∷ p, refl, spaces, value ∙ omega arith)
        ]
      ]
    ]
  ]
]

strtoul-scan :
    (p : List ℕ)
    → isdigit (char_at p 0) ≡ true
    → strtoul 10 p
      ≡ some (record {
        value = saturated (scan 10 0 p).0;
        end = (scan 10 0 p).1;
        range = ltb ulong_max (scan 10 0 p).0;
      })
unfolding strtoul
strtoul-scan p h = ground (arith, skip_stop p)

nonempty_scan :
    (p ds rest : List ℕ)
    → isdigit (char_at p 0) ≡ true
    → p ≡ ds ++ rest
    → 10 ≤ digit_value (char_at rest 0)
    → ds ≢ []
nonempty_scan p [] rest h e stop n = absurd (ground arith)
nonempty_scan p (d ∷ ds) rest h e stop n = cc

pub Reads-read : {s : List ℕ} {v : ℕ} → parser_read_uint64 s ≡ ok v → Reads s v
unfolding parser_read_uint64
Reads-read {s} {v} h = elim (Bool-cases (isdigit (char_at (skip_white_spaces s) 0))) [
  | inr e ↦ absurd (ground arith)
  | inl e ↦
      let (ws, split, spaces, stop) = skip_split s in
      let (ds, digits_split, digits, value, stop') =
        scan_split 10 0 (skip_white_spaces s) (omega arith) in
      let h' : finish (
            scale (saturated (scan 10 0 (skip_white_spaces s)).0)
              (scan 10 0 (skip_white_spaces s)).1)
          ≡ ok v =
        ground (arith, strtoul-scan (skip_white_spaces s)) in
      let (m, ws', tail, spaces', value') = scale_inv _ _ v (ground arith) h' in
      record {
        before = ws;
        digits = ds;
        unit = m;
        behind = ws';
        form = split ∙ ap (◌++◌ ws) (digits_split ∙ ap (◌++◌ ds) tail);
        spaces_before = spaces;
        are_digits = digits;
        nonempty = nonempty_scan (skip_white_spaces s) ds _ e digits_split stop';
        spaces_behind = spaces';
        value = value' ∙ ap (λ n. saturated n * factor m % 2 ^ 64) value;
      }
]

-- `parser_read_uint64` stores `v` exactly on the strings of spaces, decimal digits, at most one unit
-- and spaces that stand for `v`: the number, cut off at ULONG_MAX, times the unit, modulo 2 ^ 64.
-- It returns -EINVAL exactly on the other strings.
pub parser_read_uint64-Reads :
    (s : List ℕ)
    → ((v : ℕ) → (parser_read_uint64 s ≡ ok v) ↔ Reads s v)
      × ((parser_read_uint64 s ≡ err einval) ↔ ((v : ℕ) → ¬ Reads s v))
parser_read_uint64-Reads s = (λ v. (Reads-read, read-Reads), (refusal, refused))
  where
    refusal : parser_read_uint64 s ≡ err einval → (v : ℕ) → ¬ Reads s v
    refusal e v r = differ (sym e ∙ read-Reads r)
      where
        differ : err einval ≡ ok v → ⊥
        differ q = cc

    refused : ((v : ℕ) → ¬ Reads s v) → parser_read_uint64 s ≡ err einval
    refused never = elim (wide_reader-Fits decimal s) [
      | inl (v, e, fits) ↦ absurd (never v (Reads-read e))
      | inr e ↦ e
    ]

nonempty_of_overflow : (ds : List ℕ) (m : Magnitude) → 2 ^ 64 ≤ number 10 0 ds * factor m → ds ≢ []
nonempty_of_overflow [] m h e = absurd (omega arith)
nonempty_of_overflow (d ∷ ds) m h e = cc

-- A number that fits and overflows by its unit is accepted all the same, with a value that is not
-- the number times the unit.
pub parser_read_uint64_overflow :
    (ds : List ℕ) (m : Magnitude)
    → IsDigits 10 ds
    → number 10 0 ds ≤ ulong_max
    → 2 ^ 64 ≤ number 10 0 ds * factor m
    → (v : ℕ) × (parser_read_uint64 (ds ++ letter m) ≡ ok v) × (v < number 10 0 ds * factor m)
parser_read_uint64_overflow ds m k fits over = (
  number 10 0 ds * factor m % 2 ^ 64,
  read-Reads (record {
    before = [];
    digits = ds;
    unit = m;
    behind = [];
    form = ap (◌++◌ ds) (sym (append-nil (letter m)));
    spaces_before = tt;
    are_digits = k;
    nonempty = λ e. absurd (nonempty_of_overflow ds m over e);
    spaces_behind = tt;
    value = ground arith;
  }),
  omega arith,
)

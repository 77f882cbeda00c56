-- ===== src/Parser/CpuCore/Written.antt =====
-- The core descriptions that `parse_cpu_core` accepts, and those that overrun its array.
use rids.Prelude.{
  ℕ, zero, suc, ◌≤◌, ◌<◌, ◌≡◌, refl, ap, ◌∙◌, ◌≢◌, Bool, true, false, ◌&&◌, List, [], ◌∷◌, ◌++◌,
  Option, none, some, arith, length, length-append, ok,
}
use rids.Libc.{isspace, digit_value, char_at, skip_white_spaces}
use rids.Libc.Scan.{IsSpaces, IsDigits, number, skip-append, skip_stop}
use rids.Parser.CpuCore.{
  returns, overrun, Parsed, Part, socket, core, thread, part_at, read_num, num_value, store, params,
  parts, nothing_parsed, parse_cpu_core,
}
use rids.Parser.CpuCore.Rounds.{read_num-digits, num_value-number}

-- A number with room for its digits and the terminating NUL in num[].
abbrev pub IsNumber : List ℕ → Type 0
IsNumber ds = IsDigits 10 ds × (ds ≢ []) × (length ds < 8)

abbrev pub IsOptional : Option (List ℕ) → Type 0
IsOptional none = Unit {0}
IsOptional (some ds) = IsNumber ds

abbrev pub part_text : ℕ → Option (List ℕ) → List ℕ
part_text letter none = []
part_text letter (some ds) = letter ∷ ds

abbrev pub thread_text : Bool → List ℕ
thread_text true = b'h' ∷ []
thread_text false = []

abbrev pub value_of : Option (List ℕ) → ℕ
value_of none = 0
value_of (some ds) = number 10 0 ds

abbrev pub thread_value : Bool → ℕ
thread_value true = 1
thread_value false = 0

-- [sX][cY][h]
abbrev pub core_text : Option (List ℕ) → Option (List ℕ) → Bool → List ℕ
core_text s c h = part_text b's' s ++ (part_text b'c' c ++ thread_text h)

parts_nil : (fuel : ℕ) (st : Parsed) → parts fuel st [] ≡ some (returns (ok (params st)))
unfolding parts
parts_nil zero st = refl
parts_nil (suc fuel) st = refl

length_pos : (ds : List ℕ) → ds ≢ [] → 0 < length ds
length_pos [] n = absurd (n refl)
length_pos (d ∷ ds) n = omega arith

-- One round of the loop, over a part with a number.
parts-number :
    (fuel : ℕ) (st st' : Parsed) (type : ℕ) (next ds rest : List ℕ) (part : Part)
    → (st.s_parsed && st.c_parsed && st.h_parsed) ≡ false
    → part_at st type next ≡ some (part, st', ds ++ rest)
    → part ≢ thread
    → IsNumber ds
    → 10 ≤ digit_value (char_at rest 0)
    → parts (suc fuel) st (type ∷ next) ≡ parts fuel (store part (number 10 0 ds) st') rest
unfolding parts
parts-number fuel st st' type next ds rest socket e p t h stop = ground (
  arith,
  read_num-digits 8 ds rest h.0 h.2 stop,
  num_value-number ds h.0 h.1 h.2,
  length_pos ds h.1,
)
parts-number fuel st st' type next ds rest core e p t h stop = ground (
  arith,
  read_num-digits 8 ds rest h.0 h.2 stop,
  num_value-number ds h.0 h.1 h.2,
  length_pos ds h.1,
)
parts-number fuel st st' type next ds rest thread e p t h stop = absurd (t refl)

read_num_full :
    (room : ℕ) (ds : List ℕ) → IsDigits 10 ds → length ds ≡ room → read_num room ds ≡ some (ds, [])
unfolding read_num
read_num_full zero [] h l = refl
read_num_full (suc room) [] h l = refl
read_num_full zero (d ∷ ds) h l = absurd (omega arith)
read_num_full (suc room) (d ∷ ds) h l = ground (arith, read_num_full room ds h.1 (omega arith))

-- A number of eight digits fills num[], and its NUL is written behind it.
parts_overrun :
    (fuel : ℕ) (st st' : Parsed) (type : ℕ) (next ds : List ℕ) (part : Part)
    → (st.s_parsed && st.c_parsed && st.h_parsed) ≡ false
    → part_at st type next ≡ some (part, st', ds)
    → part ≢ thread
    → IsDigits 10 ds
    → length ds ≡ 8
    → parts (suc fuel) st (type ∷ next) ≡ some overrun
unfolding parts
parts_overrun fuel st st' type next ds socket e p t h l = ground (arith, read_num_full 8 ds h l)
parts_overrun fuel st st' type next ds core e p t h l = ground (arith, read_num_full 8 ds h l)
parts_overrun fuel st st' type next ds thread e p t h l = absurd (t refl)

after_core :
    (fuel : ℕ) (st : Parsed) (h : Bool)
    → length (thread_text h) ≤ fuel
    → st.h_parsed ≡ false
    → st.h ≡ 0
    → parts fuel st (thread_text h)
      ≡ some
          (returns (ok (record { socket_id = st.s; core_id = st.c; thread_id = thread_value h })))
unfolding parts
after_core zero st true l e z = absurd (omega arith)
after_core zero st false l e z = ground arith
after_core (suc fuel) st false l e z = ground arith
after_core (suc fuel) st true l e z =
    ground (arith, parts_nil fuel (store thread (num_value []) (record st { h_parsed = true })))

thread_stops : (h : Bool) → 10 ≤ digit_value (char_at (thread_text h) 0)
thread_stops true = omega arith
thread_stops false = omega arith

-- A digit is a core number without a letter.
digit_part :
    (d : ℕ) (next : List ℕ)
    → digit_value d < 10
    → part_at nothing_parsed d next ≡ some (core, nothing_parsed, d ∷ next)
unfolding part_at
digit_part d next h = ground arith

after_socket :
    (fuel : ℕ) (st : Parsed) (c : Option (List ℕ)) (h : Bool)
    → length (part_text b'c' c ++ thread_text h) ≤ fuel
    → IsOptional c
    → (st.c_parsed ≡ false) × (st.h_parsed ≡ false) × (st.h ≡ 0) × (st.c ≡ 0)
    → parts fuel st (part_text b'c' c ++ thread_text h)
      ≡ some (
          returns
            (ok (record { socket_id = st.s; core_id = value_of c; thread_id = thread_value h })))
unfolding part_at
after_socket fuel st none h l n z = ground (arith, after_core fuel st h l z.1 z.2)
after_socket zero st (some ds) h l n z = absurd (omega arith)
after_socket (suc fuel) st (some ds) h l n z =
    let st' = record st { c_parsed = true } in
    let room : length (ds ++ thread_text h) ≤ fuel = omega arith in
    parts-number fuel st st' b'c' (ds ++ thread_text h) ds (thread_text h) core (ground arith)
      (ground arith) (λ p. cc) n (thread_stops h)
    ∙ after_core fuel (store core (number 10 0 ds) st') h
        (omega (arith, length-append ds (thread_text h))) z.1 refl

core_text_stops :
    (c : Option (List ℕ)) (h : Bool)
    → 10 ≤ digit_value (char_at (part_text b'c' c ++ thread_text h) 0)
core_text_stops none true = omega arith
core_text_stops none false = omega arith
core_text_stops (some ds) h = omega arith

parts-core_text :
    (fuel : ℕ) (s c : Option (List ℕ)) (h : Bool)
    → length (core_text s c h) ≤ fuel
    → IsOptional s
    → IsOptional c
    → parts fuel nothing_parsed (core_text s c h)
      ≡ some (
          returns (
            ok (record {
              socket_id = value_of s;
              core_id = value_of c;
              thread_id = thread_value h;
            })))
unfolding part_at
parts-core_text fuel none c h l m n =
    after_socket fuel nothing_parsed c h l n (refl, refl, refl, refl)
parts-core_text zero (some ds) c h l m n = absurd (omega arith)
parts-core_text (suc fuel) (some ds) c h l m n =
    let st' = record nothing_parsed { s_parsed = true } in
    let rest = part_text b'c' c ++ thread_text h in
    let room : length (ds ++ rest) ≤ fuel = omega arith in
    parts-number fuel nothing_parsed st' b's' (ds ++ rest) ds rest socket refl refl (λ p. cc) m
      (core_text_stops c h)
    ∙ after_socket fuel (store socket (number 10 0 ds) st') c h
        (omega (arith, length-append ds rest)) n (refl, refl, refl, refl)

text_start : (s c : Option (List ℕ)) (h : Bool) → isspace (char_at (core_text s c h) 0) ≡ false
text_start none none true = refl
text_start none none false = refl
text_start none (some ds) h = refl
text_start (some ds) c h = refl

-- Behind spaces, a description [sX][cY][h] of a core is read as it stands: a socket, a core and a
-- thread that are left out are 0, and each may be left out, all three too. A number has one to
-- seven digits.
pub parse_cpu_core-core_text :
    (ws : List ℕ) (s c : Option (List ℕ)) (h : Bool)
    → IsSpaces ws
    → IsOptional s
    → IsOptional c
    → parse_cpu_core (ws ++ core_text s c h)
      ≡ some (
          returns (
            ok (record {
              socket_id = value_of s;
              core_id = value_of c;
              thread_id = thread_value h;
            })))
unfolding parse_cpu_core
parse_cpu_core-core_text ws s c h k m n =
    let text = core_text s c h in
    ap (λ p. parts (length p) nothing_parsed p)
      (skip-append ws text k ∙ skip_stop text (text_start s c h))
    ∙ parts-core_text (length text) s c h (omega arith) m n

-- Behind spaces, a core number of eight digits at the end of the string makes `parse_cpu_core`
-- write behind its array num[8], with no letter before the number or with an 's' or a 'c'.
pub parse_cpu_core_overrun :
    (ws ds : List ℕ)
    → IsSpaces ws
    → IsDigits 10 ds
    → length ds ≡ 8
    → (parse_cpu_core (ws ++ ds) ≡ some overrun)
      × (parse_cpu_core (ws ++ (b's' ∷ ds)) ≡ some overrun)
      × (parse_cpu_core (ws ++ (b'c' ∷ ds)) ≡ some overrun)
unfolding parse_cpu_core
parse_cpu_core_overrun ws [] k h l = absurd (omega arith)
parse_cpu_core_overrun ws (d ∷ ds) k h l =
    (plain, lettered b's' socket _ refl refl (λ p. cc), lettered b'c' core _ refl refl (λ p. cc))
  where
    plain :
        parts
          (length (skip_white_spaces (ws ++ (d ∷ ds))))
          nothing_parsed
          (skip_white_spaces (ws ++ (d ∷ ds)))
        ≡ some overrun
    plain =
        ap (λ p. parts (length p) nothing_parsed p)
          (skip-append ws (d ∷ ds) k ∙ skip_stop (d ∷ ds) (ground arith))
        ∙ parts_overrun (length ds) nothing_parsed nothing_parsed d ds (d ∷ ds) core refl
            (digit_part d ds h.0) (λ p. cc) h l

    lettered :
        (letter : ℕ) (part : Part) (st' : Parsed)
        → isspace letter ≡ false
        → part_at nothing_parsed letter (d ∷ ds) ≡ some (part, st', d ∷ ds)
        → part ≢ thread
        → parts
            (length (skip_white_spaces (ws ++ (letter ∷ d ∷ ds))))
            nothing_parsed
            (skip_white_spaces (ws ++ (letter ∷ d ∷ ds)))
          ≡ some overrun
    lettered letter part st' e p t =
        ap (λ p. parts (length p) nothing_parsed p)
          (skip-append ws (letter ∷ d ∷ ds) k ∙ skip_stop (letter ∷ d ∷ ds) e)
        ∙ parts_overrun (length (d ∷ ds)) nothing_parsed st' letter (d ∷ ds) (d ∷ ds) part refl p t
            h l

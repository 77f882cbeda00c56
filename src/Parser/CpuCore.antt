-- ===== src/Parser/CpuCore.antt =====
-- parser.c: `parse_cpu_core`.
pub mod Rounds
pub mod Written
use rids.Prelude.{
  ℕ, zero, suc, ◌+◌, ◌%◌, ◌^◌, Bool, true, false, not, ◌&&◌, ◌||◌, List, [], ◌∷◌, Option, none,
  some, ltb, ◌==◌, if◌then◌else◌, length, Outcome, ok, err, einval,
}
use rids.Libc.{isdigit, skip_white_spaces, strtol, Conversion}

-- struct cpu_core_params
pub record CpuCoreParams : Type 0 where
  pub socket_id : ℕ
  pub core_id : ℕ
  pub thread_id : ℕ

-- A run of the function ends with its result, or by writing behind the array num[8].
pub data Run : Type 0 where
  returns : Outcome CpuCoreParams → Run
  overrun : Run

-- s, c, h and the flags of what was parsed.
pub record Parsed : Type 0 where
  pub s : ℕ
  pub c : ℕ
  pub h : ℕ
  pub s_parsed : Bool
  pub c_parsed : Bool
  pub h_parsed : Bool

-- The cases of the first switch, by the type that they leave.
pub data Part : Type 0 where
  socket core thread : Part

abbrev pub any_parsed : Parsed → Bool
any_parsed st = st.s_parsed || st.c_parsed || st.h_parsed

-- The first switch: the part, the flags, and `next`. `none` is -EINVAL.
pub part_at : Parsed → ℕ → List ℕ → Option (Part × Parsed × List ℕ)
part_at st type next =
    if type == b's' || type == b'S'
    then (if any_parsed st then none else some (socket, record st { s_parsed = true }, next))
    else if type == b'c' || type == b'C'
    then (if st.c_parsed || st.h_parsed
        then none
        else some (core, record st { c_parsed = true }, next))
    else if type == b'h' || type == b'H'
    then (if st.h_parsed then none else some (thread, record st { h_parsed = true }, next))
    else if not (isdigit type) || any_parsed st
    then none
    else some (core, st, type ∷ next)

-- The loop over the digits, with the room left in num[]: the characters of num and `next`.
pub read_num : ℕ → List ℕ → Option (List ℕ × List ℕ)
read_num room [] = some ([], [])
read_num zero (c ∷ next) = none
read_num (suc room) (c ∷ next) = elim (isdigit c) [
  | true ↦ elim (read_num room next) [ none ↦ none | some (num, rest) ↦ some (c ∷ num, rest) ]
  | false ↦ some ([], c ∷ next)
]

-- val = strtol(num, NULL, 10)
abbrev pub num_value : List ℕ → ℕ
num_value num = elim (strtol 10 num) [ none ↦ 0 | some v ↦ v.value % 2 ^ 32 ]

-- The second switch, after `h = 0`.
abbrev pub store : Part → ℕ → Parsed → Parsed
store socket val st = record st { s = val; h = 0 }
store core val st = record st { c = val; h = 0 }
store thread val st = record st { h = 1 }

-- num_len against the type
abbrev pub bad_length : Part → ℕ → Bool
bad_length thread n = not (n == 0)
bad_length _ n = n == 0

abbrev pub params : Parsed → CpuCoreParams
params st = record { socket_id = st.s; core_id = st.c; thread_id = st.h }

-- The loop over the parts, on fuel; `none`: the fuel ran out.
pub parts : ℕ → Parsed → List ℕ → Option Run
unfolding part_at read_num
parts fuel st [] = some (returns (ok (params st)))
parts zero st (type ∷ next) = none
parts (suc fuel) st (type ∷ next) = elim (st.s_parsed && st.c_parsed && st.h_parsed) [
  | true ↦ some (returns (err einval))
  | false ↦ elim (part_at st type next) [
    | none ↦ some (returns (err einval))
    | some (part, st', start) ↦ elim (read_num 8 start) [
      | none ↦ some (returns (err einval))
      | some (num, rest) ↦ elim (bad_length part (length num)) [
        | true ↦ some (returns (err einval))
        | false ↦ elim (length num == 8) [
          | true ↦ some overrun
          | false ↦ parts fuel (store part (num_value num) st') rest
        ]
      ]
    ]
  ]
]

abbrev pub nothing_parsed : Parsed
nothing_parsed = record {
  s = 0;
  c = 0;
  h = 0;
  s_parsed = false;
  c_parsed = false;
  h_parsed = false;
}

-- `p` is not null. A part takes at least one character, so their number is fuel enough.
pub parse_cpu_core : List ℕ → Option Run
unfolding parts
parse_cpu_core entry = let next = skip_white_spaces entry in parts (length next) nothing_parsed next

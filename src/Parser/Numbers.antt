-- ===== src/Parser/Numbers.antt =====
-- parser.c: `parser_read_uint64` and the readers built on it, decimal and hexadecimal.
pub mod Grammar
pub mod Bounds
use rids.Prelude.{
  ℕ, ◌*◌, ◌-◌, ◌%◌, ◌^◌, Bool, true, false, not, ◌||◌, List, Option, none, some, ltb, ◌==◌,
  if◌then◌else◌, drop, Outcome, ok, err, einval, erange, ◌>>=◌,
}
use rids.Libc.{at_end, char_at, isdigit, skip_white_spaces, strtoul, Conversion}

-- val *= 1024ULL
abbrev pub times_1024 : ℕ → ℕ
times_1024 val = val * 1024 % 2 ^ 64

-- The switch on the unit behind the digits, whose cases fall through from T to K.
abbrev pub scale : ℕ → List ℕ → ℕ × List ℕ
scale val p =
    let c = char_at p 0 in
    if c == b'T'
    then (times_1024 (times_1024 (times_1024 (times_1024 val))), drop 1 p)
    else if c == b'G'
    then (times_1024 (times_1024 (times_1024 val)), drop 1 p)
    else if c == b'M'
    then (times_1024 (times_1024 val), drop 1 p)
    else if c == b'k' || c == b'K'
    then (times_1024 val, drop 1 p)
    else (val, p)

abbrev pub finish : ℕ × List ℕ → Outcome ℕ
finish (val, p) = if at_end (skip_white_spaces p) then ok val else err einval

abbrev pub scaled : Option Conversion → Outcome ℕ
scaled none = err einval
scaled (some c) = finish (scale c.value c.end)

unfoldable pub parser_read_uint64 : List ℕ → Outcome ℕ
unfolding skip_white_spaces strtoul
parser_read_uint64 s =
    let p = skip_white_spaces s in
    if isdigit (char_at p 0) then scaled (strtoul 10 p) else err einval

abbrev pub unscaled : Option Conversion → Outcome ℕ
unscaled none = err einval
unscaled (some c) = finish (c.value, c.end)

unfoldable pub parser_read_uint64_hex : List ℕ → Outcome ℕ
unfolding skip_white_spaces strtoul
parser_read_uint64_hex s = unscaled (strtoul 16 (skip_white_spaces s))

-- if (val > max) return -ERANGE;
abbrev pub narrow : ℕ → Outcome ℕ → Outcome ℕ
narrow max r = r >>= λ val. if ltb max val then err erange else ok val

unfoldable pub parser_read_uint32 : List ℕ → Outcome ℕ
parser_read_uint32 p = narrow (2 ^ 32 - 1) (parser_read_uint64 p)

unfoldable pub parser_read_uint32_hex : List ℕ → Outcome ℕ
parser_read_uint32_hex p = narrow (2 ^ 32 - 1) (parser_read_uint64_hex p)

unfoldable pub parser_read_uint16 : List ℕ → Outcome ℕ
parser_read_uint16 p = narrow (2 ^ 16 - 1) (parser_read_uint64 p)

unfoldable pub parser_read_uint16_hex : List ℕ → Outcome ℕ
parser_read_uint16_hex p = narrow (2 ^ 16 - 1) (parser_read_uint64_hex p)

unfoldable pub parser_read_uint8 : List ℕ → Outcome ℕ
parser_read_uint8 p = narrow (2 ^ 8 - 1) (parser_read_uint64 p)

unfoldable pub parser_read_uint8_hex : List ℕ → Outcome ℕ
parser_read_uint8_hex p = narrow (2 ^ 8 - 1) (parser_read_uint64_hex p)

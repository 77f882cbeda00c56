-- ===== src/Libc.antt =====
-- The parts of the C library that the parsers use, in the "C" locale. A string is the list of its
-- character codes, none of them 0: the terminating NUL is the end of the list, and a pointer into
-- a string is the part that is left of it.
pub mod Scan
pub mod Conversions
use rids.Prelude.{
  ℕ, ◌+◌, ◌-◌, ◌*◌, ◌%◌, ◌^◌, Bool, true, false, ◌&&◌, ◌||◌, List, [], ◌∷◌, Option, none, some, ltb,
  leb, ◌==◌, if◌then◌else◌, get_or, drop,
}

-- p[i], which is 0 at the end of the string
abbrev pub char_at : List ℕ → ℕ → ℕ
char_at p i = get_or p i 0

-- *p == '\0'
abbrev pub at_end : List ℕ → Bool
at_end [] = true
at_end (c ∷ p) = false

abbrev pub isspace : ℕ → Bool
isspace c = c == 32 || (leb 9 c && leb c 13)

abbrev pub isdigit : ℕ → Bool
isdigit c = leb b'0' c && leb c b'9'

-- The macro `skip_white_spaces` of parser.h.
unfoldable pub skip_white_spaces : List ℕ → List ℕ
skip_white_spaces [] = []
skip_white_spaces (c ∷ p) = if isspace c then skip_white_spaces p else c ∷ p

-- The value of a digit in any base up to 36; what is no digit has a value past every base.
abbrev pub digit_value : ℕ → ℕ
digit_value c =
    if isdigit c
    then c - b'0'
    else if leb b'A' c && leb c b'Z'
    then c - b'A' + 10
    else if leb b'a' c && leb c b'z'
    then c - b'a' + 10
    else 36

-- The longest run of digits: the number that it stands for, and the rest of the string.
unfoldable pub scan : ℕ → ℕ → List ℕ → ℕ × List ℕ
scan base acc [] = (acc, [])
scan base acc (c ∷ p) =
    if ltb (digit_value c) base then scan base (acc * base + digit_value c) p else (acc, c ∷ p)

abbrev pub ulong_max : ℕ
ulong_max = 2 ^ 64 - 1

-- A conversion: the returned bit pattern, what `*end` points to, and whether errno is ERANGE.
pub record Conversion : Type 0 where
  pub value : ℕ
  pub end : List ℕ
  pub range : Bool

abbrev pub sign_is_minus : List ℕ → Bool
sign_is_minus p = char_at p 0 == b'-'

abbrev pub skip_sign : List ℕ → List ℕ
skip_sign p = if char_at p 0 == b'-' || char_at p 0 == b'+' then drop 1 p else p

-- "0x" before a hexadecimal digit is no part of the number.
abbrev pub skip_prefix : ℕ → List ℕ → List ℕ
skip_prefix base p =
    if base == 16
      && (char_at p 0 == b'0')
      && (char_at p 1 == b'x' || char_at p 1 == b'X')
      && ltb (digit_value (char_at p 2)) 16
    then drop 2 p
    else p

abbrev pub unsigned_conversion : Bool → ℕ × List ℕ → Conversion
unsigned_conversion minus (m, rest) =
    if ltb ulong_max m
    then record { value = ulong_max; end = rest; range = true }
    else record { value = if minus then (2 ^ 64 - m) % 2 ^ 64 else m; end = rest; range = false }

-- The 64-bit pattern of a signed result, which saturates at both ends.
abbrev pub signed_conversion : Bool → ℕ × List ℕ → Conversion
signed_conversion true (m, rest) =
    if ltb (2 ^ 63) m
    then record { value = 2 ^ 63; end = rest; range = true }
    else record { value = (2 ^ 64 - m) % 2 ^ 64; end = rest; range = false }
signed_conversion false (m, rest) =
    if ltb (2 ^ 63 - 1) m
    then record { value = 2 ^ 63 - 1; end = rest; range = true }
    else record { value = m; end = rest; range = false }

-- `none`: no digits, so that `*end` is the string itself and the result 0.
unfoldable pub convert : (Bool → ℕ × List ℕ → Conversion) → ℕ → List ℕ → Option Conversion
convert finish base p =
    let body = skip_white_spaces p in
    let digits = skip_prefix base (skip_sign body) in
    if ltb (digit_value (char_at digits 0)) base
    then some (finish (sign_is_minus body) (scan base 0 digits))
    else none

unfoldable pub strtoul : ℕ → List ℕ → Option Conversion
unfolding convert
strtoul = convert unsigned_conversion

unfoldable pub strtol : ℕ → List ℕ → Option Conversion
unfolding convert
strtol = convert signed_conversion

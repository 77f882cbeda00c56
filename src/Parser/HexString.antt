-- ===== src/Parser/HexString.antt =====
-- parser.c: `parse_hex_string` and `get_hex_val`.
pub mod RoundTrip
use rids.Prelude.{
  ℕ, zero, suc, ◌+◌, ◌-◌, ◌*◌, ◌/◌, ◌%◌, ◌^◌, ◌≤◌, Bool, true, false, not, ◌&&◌, ◌||◌, List, [],
  ◌∷◌, Option, none, some, ltb, leb, ◌==◌, if◌then◌else◌, length, Outcome, ok, err, failure,
}
use rids.Libc.{char_at}

pub get_hex_val : ℕ → ℕ
get_hex_val c =
    if leb b'0' c && leb c b'9'
    then c - b'0'
    else if leb b'A' c && leb c b'F'
    then c - b'A' + 10
    else if leb b'a' c && leb c b'f'
    then c - b'a' + 10
    else 0

abbrev pub is_hex : ℕ → Bool
is_hex c = (leb b'0' c && leb c b'9') || (leb b'A' c && leb c b'F') || (leb b'a' c && leb c b'f')

pub all_hex : List ℕ → Bool
all_hex [] = true
all_hex (c ∷ p) = is_hex c && all_hex p

-- dst[i .. i + n), one byte for two characters
pub convert_bytes : ℕ → ℕ → List ℕ → List ℕ
unfolding get_hex_val
convert_bytes zero i src = []
convert_bytes (suc n) i src =
    (get_hex_val (char_at src (2 * i)) * 16 + get_hex_val (char_at src (2 * i + 1))) % 2 ^ 8
    ∷ convert_bytes n (i + 1) src

-- `none` for a null `src`; the bytes stored at `dst` are `*size` many afterwards.
pub parse_hex_string : Option (List ℕ) → ℕ → Outcome (List ℕ)
unfolding all_hex convert_bytes
parse_hex_string none size = err failure
parse_hex_string (some src) size =
    let len = length src in
    if size == 0
    then err failure
    else if not (len % 4 == 0) || ltb (size * 2 % 2 ^ 32) len
    then err failure
    else if all_hex src
    then ok (convert_bytes (len / 2) 0 src)
    else err failure

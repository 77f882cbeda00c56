-- ===== src/Parser/HexString/RoundTrip.antt =====
-- `parse_hex_string` against the encoding of bytes as pairs of hexadecimal digits.
use rids.Prelude.{
  ℕ, zero, suc, ◌+◌, ◌-◌, ◌*◌, ◌/◌, ◌%◌, ◌^◌, ◌≤◌, ◌<◌, ◌≡◌, refl, ap, ap, true, List, [], ◌∷◌,
  some, arith, ltb, if◌then◌else◌, length, All, ok, err, failure,
}
use rids.Parser.HexString.{get_hex_val, is_hex, all_hex, convert_bytes, parse_hex_string}

-- A digit of base sixteen, with small letters.
abbrev pub hex_char : ℕ → ℕ
hex_char d = if ltb d 10 then b'0' + d else b'a' + (d - 10)

unfoldable pub encode : List ℕ → List ℕ
encode [] = []
encode (b ∷ bs) = hex_char (b / 16) ∷ hex_char (b % 16) ∷ encode bs

abbrev pub AreBytes : List ℕ → Type 0
AreBytes bs = All (λ b. b < 2 ^ 8) bs

length-encode : (bs : List ℕ) → length (encode bs) ≡ 2 * length bs
unfolding encode
length-encode [] = refl
length-encode (b ∷ bs) = omega (arith, length-encode bs)

hex_digit : (d : ℕ) → d < 16 → (get_hex_val (hex_char d) ≡ d) × (is_hex (hex_char d) ≡ true)
unfolding get_hex_val
hex_digit d h = ground arith

all_hex-encode : (bs : List ℕ) → AreBytes bs → all_hex (encode bs) ≡ true
unfolding all_hex encode
all_hex-encode [] h = refl
all_hex-encode (b ∷ bs) h =
    ground (arith, hex_digit (b / 16), hex_digit (b % 16), all_hex-encode bs h.1)

-- Reading goes on in the rest of the string as in the string from there.
convert_shift :
    (n i : ℕ) (c d : ℕ) (p : List ℕ) → convert_bytes n (i + 1) (c ∷ d ∷ p) ≡ convert_bytes n i p
unfolding convert_bytes
convert_shift zero i c d p = refl
convert_shift (suc n) i c d p =
    let e : 2 * (i + 1) ≡ suc (suc (2 * i)) = omega arith in
    let e' : 2 * (i + 1) + 1 ≡ suc (suc (2 * i + 1)) = omega arith in
    rw (e', e, convert_shift n (i + 1) c d p)

convert_bytes-encode : (bs : List ℕ) → AreBytes bs → convert_bytes (length bs) 0 (encode bs) ≡ bs
unfolding convert_bytes encode
convert_bytes-encode [] h = refl
convert_bytes-encode (b ∷ bs) h = ground (
  arith,
  hex_digit (b / 16),
  hex_digit (b % 16),
  convert_shift (length bs) 0 (hex_char (b / 16)) (hex_char (b % 16)) (encode bs),
  convert_bytes-encode bs h.1,
)

-- An even number of bytes that fits `*size`, which is below 2 ^ 31, is read back from its hexadecimal
-- digits.
pub parse_hex_string-encode :
    (bs : List ℕ) (size : ℕ)
    → AreBytes bs
    → 0 < size
    → size < 2 ^ 31
    → length bs ≤ size
    → length bs % 2 ≡ 0
    → parse_hex_string (some (encode bs)) size ≡ ok bs
unfolding parse_hex_string
parse_hex_string-encode bs size h pos small fits even =
    let l : length (encode bs) ≡ 2 * length bs = length-encode bs in
    let half : length (encode bs) / 2 ≡ length bs = omega arith in
    rw (half, all_hex-encode bs h, convert_bytes-encode bs h) (ground arith)

-- The digits of an odd number of bytes are refused, whatever the room: the test on the length asks
-- for a multiple of four digits.
pub parse_hex_string_odd :
    (bs : List ℕ) (size : ℕ)
    → AreBytes bs
    → length bs % 2 ≡ 1
    → parse_hex_string (some (encode bs)) size ≡ err failure
unfolding parse_hex_string
parse_hex_string_odd bs size h odd = ground (arith, length-encode bs)

length-convert_bytes : (n i : ℕ) (src : List ℕ) → length (convert_bytes n i src) ≡ n
unfolding convert_bytes
length-convert_bytes zero i src = refl
length-convert_bytes (suc n) i src = ap suc (length-convert_bytes n (i + 1) src)

convert_bytes-AreBytes : (n i : ℕ) (src : List ℕ) → AreBytes (convert_bytes n i src)
unfolding convert_bytes
convert_bytes-AreBytes zero i src = tt
convert_bytes-AreBytes (suc n) i src = (omega arith, convert_bytes-AreBytes n (i + 1) src)

-- Whatever the string, no more than `*size` bytes are written at `dst`: two digits give one byte.
pub parse_hex_string_bounds :
    (src : List ℕ) (size : ℕ) {dst : List ℕ}
    → parse_hex_string (some src) size ≡ ok dst
    → (length dst ≤ size) × (2 * length dst ≡ length src) × AreBytes dst
unfolding parse_hex_string
parse_hex_string_bounds src size {dst} h =
    let e : dst ≡ convert_bytes (length src / 2) 0 src = ground arith in
    rw (e, length-convert_bytes) (ground arith, ground arith, convert_bytes-AreBytes _ 0 src)

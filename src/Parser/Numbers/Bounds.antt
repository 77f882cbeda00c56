-- ===== src/Parser/Numbers/Bounds.antt =====
-- The narrow readers against the 64-bit ones.
use rids.Prelude.{
  ℕ, ◌<◌, ◌≤◌, ◌^◌, ◌≡◌, ◌↔◌, Bool, true, false, List, arith, Outcome, ok, err, einval, erange,
  Bool-cases, subst, if◌then◌else◌, ◌⊎◌, inl, inr, ltb, Option, some, none, refl, suc,
}
use mathlib.Core.Option.{some-injective, none-ne-some}
use rids.Libc.{
  at_end, char_at, isdigit, digit_value, skip_white_spaces, skip_sign, skip_prefix, sign_is_minus,
  scan, strtoul, unsigned_conversion, Conversion,
}
use rids.Parser.Numbers.{
  finish, scale, scaled, unscaled, narrow, parser_read_uint64, parser_read_uint64_hex,
  parser_read_uint32, parser_read_uint32_hex, parser_read_uint16, parser_read_uint16_hex,
  parser_read_uint8, parser_read_uint8_hex,
}

pub data Width : Type 0 where
  u8 u16 u32 : Width

pub data Base : Type 0 where
  decimal hexadecimal : Base

abbrev pub bits : Width → ℕ
bits u8 = 8
bits u16 = 16
bits u32 = 32

abbrev pub wide_reader : Base → List ℕ → Outcome ℕ
wide_reader decimal = parser_read_uint64
wide_reader hexadecimal = parser_read_uint64_hex

abbrev pub narrow_reader : Base → Width → List ℕ → Outcome ℕ
narrow_reader decimal u8 = parser_read_uint8
narrow_reader decimal u16 = parser_read_uint16
narrow_reader decimal u32 = parser_read_uint32
narrow_reader hexadecimal u8 = parser_read_uint8_hex
narrow_reader hexadecimal u16 = parser_read_uint16_hex
narrow_reader hexadecimal u32 = parser_read_uint32_hex

-- What a reader of `bound` values makes of the 64-bit reader's result.
abbrev pub Narrows : ℕ → Outcome ℕ → Outcome ℕ → Type 0
Narrows bound wide r =
    ((v : ℕ) → (r ≡ ok v) ↔ ((wide ≡ ok v) × (v < bound)))
    × ((r ≡ err erange) ↔ ((v : ℕ) × (wide ≡ ok v) × (bound ≤ v)))

abbrev pub Fits : Outcome ℕ → Type 0
Fits r = ((v : ℕ) × (r ≡ ok v) × (v < 2 ^ 64)) ⊎ (r ≡ err einval)

finish-Fits : (r : ℕ × List ℕ) → r.0 < 2 ^ 64 → Fits (finish r)
finish-Fits (n, p) h = elim (Bool-cases (at_end (skip_white_spaces p))) [
  | inl e ↦ inl (n, rw e, h)
  | inr e ↦ inr (rw e)
]

scale-lt : (n : ℕ) (p : List ℕ) → n < 2 ^ 64 → (scale n p).0 < 2 ^ 64
scale-lt n p h = ground arith

unsigned_conversion-lt : (b : Bool) (r : ℕ × List ℕ) → (unsigned_conversion b r).value < 2 ^ 64
unsigned_conversion-lt b r = ground arith

if_some-lt :
    (b : Bool) (r c : Conversion)
    → r.value < 2 ^ 64
    → (if b then some r else none) ≡ some c
    → c.value < 2 ^ 64
if_some-lt true r c h e = subst (λ (x : Conversion). x.value < 2 ^ 64) (some-injective r c e) h
if_some-lt false r c h e = absurd (none-ne-some c e)

strtoul-lt : (base : ℕ) (p : List ℕ) (c : Conversion) → strtoul base p ≡ some c → c.value < 2 ^ 64
unfolding strtoul
strtoul-lt base p c =
    let body = skip_white_spaces p in
    let r = scan base 0 (skip_prefix base (skip_sign body)) in
    if_some-lt (ltb (digit_value (char_at (skip_prefix base (skip_sign body)) 0)) base)
      (unsigned_conversion (sign_is_minus body) r) c (unsigned_conversion-lt (sign_is_minus body) r)

scaled-Fits :
    (o : Option Conversion) → ((c : Conversion) → o ≡ some c → c.value < 2 ^ 64) → Fits (scaled o)
scaled-Fits none h = inr refl
scaled-Fits (some c) h = finish-Fits (scale c.value c.end) (scale-lt c.value c.end (h c refl))

unscaled-Fits :
    (o : Option Conversion) → ((c : Conversion) → o ≡ some c → c.value < 2 ^ 64) → Fits (unscaled o)
unscaled-Fits none h = inr refl
unscaled-Fits (some c) h = finish-Fits (c.value, c.end) (h c refl)

-- The 64-bit readers store a 64-bit value, or return -EINVAL.
pub wide_reader-Fits : (b : Base) (p : List ℕ) → Fits (wide_reader b p)
unfolding parser_read_uint64 parser_read_uint64_hex
wide_reader-Fits decimal p = elim (Bool-cases (isdigit (char_at (skip_white_spaces p) 0))) [
  | inl e ↦ rw e (scaled-Fits _ (strtoul-lt 10 (skip_white_spaces p)))
  | inr e ↦ inr (rw e)
]
wide_reader-Fits hexadecimal p = unscaled-Fits _ (strtoul-lt 16 (skip_white_spaces p))

narrow-Narrows :
    (max bound : ℕ) (r : Outcome ℕ) → suc max ≡ bound → Fits r → Narrows bound r (narrow max r)
narrow-Narrows max bound (ok n) e f = (
  λ v. (λ h. (ground arith, ground arith), λ h. ground arith),
  (λ h. (n, refl, ground arith), λ h. ground arith),
)
narrow-Narrows max bound (err x) e (inl f) = absurd (ground arith)
narrow-Narrows max bound (err x) e (inr f) = (
  λ v. (λ h. absurd (ground arith), λ h. absurd (ground arith)),
  (λ h. absurd (ground arith), λ h. absurd (ground arith)),
)

-- Each narrow reader stores exactly the values of the 64-bit reader that are within its width, and
-- returns -ERANGE exactly where the 64-bit reader stores a larger one.
pub narrow_reader-Narrows :
    (b : Base) (w : Width) (p : List ℕ)
    → Narrows (2 ^ bits w) (wide_reader b p) (narrow_reader b w p)
unfolding parser_read_uint32 parser_read_uint32_hex parser_read_uint16 parser_read_uint16_hex
    parser_read_uint8 parser_read_uint8_hex
narrow_reader-Narrows decimal u8 p = narrow-Narrows _ _ _ (omega arith) (wide_reader-Fits decimal p)
narrow_reader-Narrows decimal u16 p =
    narrow-Narrows _ _ _ (omega arith) (wide_reader-Fits decimal p)
narrow_reader-Narrows decimal u32 p =
    narrow-Narrows _ _ _ (omega arith) (wide_reader-Fits decimal p)
narrow_reader-Narrows hexadecimal u8 p =
    narrow-Narrows _ _ _ (omega arith) (wide_reader-Fits hexadecimal p)
narrow_reader-Narrows hexadecimal u16 p =
    narrow-Narrows _ _ _ (omega arith) (wide_reader-Fits hexadecimal p)
narrow_reader-Narrows hexadecimal u32 p =
    narrow-Narrows _ _ _ (omega arith) (wide_reader-Fits hexadecimal p)

-- ===== src/Libc/Conversions.antt =====
-- The conversions on strings that begin with digits.
use rids.Prelude.{
  ℕ, ◌+◌, ◌*◌, ◌≤◌, ◌<◌, ◌≡◌, refl, ◌≢◌, false, List, [], ◌∷◌, ◌++◌, some, arith, zero, suc, ◌==◌,
  ◌||◌, lt→ltb, length, ap,
}
use rids.Libc.{
  char_at, digit_value, skip_white_spaces, strtoul, strtol, skip_sign, skip_prefix, sign_is_minus,
  signed_conversion, unsigned_conversion,
}
use rids.Libc.Scan.{IsDigits, number, scan-append, skip_stop}

-- `strtol` in base ten, of digits without a sign.
pub strtol-number :
    (ds rest : List ℕ)
    → IsDigits 10 ds
    → ds ≢ []
    → 10 ≤ digit_value (char_at rest 0)
    → strtol 10 (ds ++ rest) ≡ some (signed_conversion false (number 10 0 ds, rest))
unfolding strtol
strtol-number [] rest h n stop = absurd (n refl)
strtol-number (d ∷ ds) rest h n stop =
    ground (arith, scan-append 10 0 (d ∷ ds) rest h stop, skip_stop (d ∷ ds ++ rest))

plain_start :
    (d : ℕ) (p : List ℕ)
    → digit_value d < 16
    → (skip_white_spaces (d ∷ p) ≡ d ∷ p)
      × (skip_sign (d ∷ p) ≡ d ∷ p)
      × (sign_is_minus (d ∷ p) ≡ false)
plain_start d p h = (skip_stop (d ∷ p) (ground arith), ground arith, ground arith)

no_prefix :
    (d : ℕ) (p : List ℕ)
    → (char_at p 0 == b'x' || char_at p 0 == b'X') ≡ false
    → skip_prefix 16 (d ∷ p) ≡ d ∷ p
no_prefix d p h = rw h (ground arith)

not_x :
    (ds rest : List ℕ)
    → IsDigits 16 ds
    → 36 ≤ digit_value (char_at rest 0)
    → (char_at (ds ++ rest) 0 == b'x' || char_at (ds ++ rest) 0 == b'X') ≡ false
not_x [] rest h stop = ground arith
not_x (d ∷ ds) rest h stop = ground arith

-- `strtoul` in base sixteen, of digits without a sign and with no letter behind them.
pub strtoul_hex :
    (ds rest : List ℕ)
    → IsDigits 16 ds
    → ds ≢ []
    → 36 ≤ digit_value (char_at rest 0)
    → strtoul 16 (ds ++ rest) ≡ some (unsigned_conversion false (number 16 0 ds, rest))
unfolding strtoul
strtoul_hex [] rest h n stop = absurd (n refl)
strtoul_hex (d ∷ ds) rest h n stop =
    let (spaces, sign, minus) = plain_start d (ds ++ rest) h.0 in
    rw (spaces, sign, minus, no_prefix d (ds ++ rest) (not_x ds rest h.1 stop), lt→ltb _ _ h.0)
      (ap (λ (r : ℕ × List ℕ). some (unsigned_conversion false r))
        (scan-append 16 0 (d ∷ ds) rest h (omega arith)))

-- Ten times `a`, `k` times over.
abbrev pub tenfold : ℕ → ℕ → ℕ
tenfold zero a = a
tenfold (suc k) a = tenfold k (a * 10)

tenfold_mono : (k a b : ℕ) → a ≤ b → tenfold k a ≤ tenfold k b
tenfold_mono zero a b h = h
tenfold_mono (suc k) a b h = tenfold_mono k (a * 10) (b * 10) (omega arith)

le-tenfold : (k a : ℕ) → a ≤ tenfold k a
le-tenfold zero a = omega arith
le-tenfold (suc k) a = omega (arith, le-tenfold k (a * 10))

-- A number of at most `k` decimal digits is below 10 ^ k.
pub number-lt :
    (acc k : ℕ) (ds : List ℕ)
    → IsDigits 10 ds
    → length ds ≤ k
    → number 10 acc ds < tenfold k (acc + 1)
number-lt acc k [] h l = omega (arith, le-tenfold k (acc + 1))
number-lt acc zero (d ∷ ds) h l = absurd (omega arith)
number-lt acc (suc k) (d ∷ ds) h l =
    let x = acc * 10 + digit_value d in
    let first : number 10 x ds < tenfold k (x + 1) = number-lt x k ds h.1 (omega arith) in
    omega (arith, first, tenfold_mono k (x + 1) ((acc + 1) * 10) (omega (arith, h.0)))

-- ===== src/Libc/Scan.antt =====
-- What `skip_white_spaces` and `scan` do: each splits the longest run of its characters off.
use rids.Prelude.{
  ℕ, ◌+◌, ◌*◌, ◌≤◌, ◌<◌, ◌≡◌, refl, ap, true, false, List, [], ◌∷◌, ◌++◌, arith, ltb, Bool-cases,
  inl, inr, All,
}
use rids.Libc.{isspace, digit_value, skip_white_spaces, scan, char_at, at_end}

abbrev pub IsSpaces : List ℕ → Type 0
IsSpaces ws = All (λ c. isspace c ≡ true) ws

abbrev pub IsDigits : ℕ → List ℕ → Type 0
IsDigits base ds = All (λ c. digit_value c < base) ds

-- The number that digits stand for, after those already read.
abbrev pub number : ℕ → ℕ → List ℕ → ℕ
number base acc [] = acc
number base acc (c ∷ ds) = number base (acc * base + digit_value c) ds

pub skip-append : (ws p : List ℕ) → IsSpaces ws → skip_white_spaces (ws ++ p) ≡ skip_white_spaces p
unfolding skip_white_spaces
skip-append [] p h = refl
skip-append (c ∷ ws) p h = ground (arith, skip-append ws p h.1)

pub skip-spaces : (ws : List ℕ) → IsSpaces ws → skip_white_spaces ws ≡ []
unfolding skip_white_spaces
skip-spaces [] h = refl
skip-spaces (c ∷ ws) h = ground (arith, skip-spaces ws h.1)

pub skip_stop : (p : List ℕ) → isspace (char_at p 0) ≡ false → skip_white_spaces p ≡ p
unfolding skip_white_spaces
skip_stop [] h = refl
skip_stop (c ∷ p) h = ground arith

-- Spaces are skipped and nothing else, up to the first character that is none.
pub skip_split :
    (p : List ℕ)
    → (ws : List ℕ) × (p ≡ ws ++ skip_white_spaces p)
      × IsSpaces ws
      × (isspace (char_at (skip_white_spaces p) 0) ≡ false)
unfolding skip_white_spaces
skip_split [] = ([], refl, tt, refl)
skip_split (c ∷ p) = elim (Bool-cases (isspace c)) [
  | inl e ↦
      let (ws, split, spaces, stop) = skip_split p in
      (c ∷ ws, rw e (ap (λ r. c ∷ r) split), (e, spaces), rw e stop)
  | inr e ↦ ([], rw e, tt, rw e e)
]

pub scan-append :
    (base acc : ℕ) (ds rest : List ℕ)
    → IsDigits base ds
    → base ≤ digit_value (char_at rest 0)
    → scan base acc (ds ++ rest) ≡ (number base acc ds, rest)
unfolding scan
scan-append base acc [] [] h stop = refl
scan-append base acc [] (c ∷ rest) h stop = ground arith
scan-append base acc (d ∷ ds) rest h stop =
    ground (arith, scan-append base (acc * base + digit_value d) ds rest h.1)

pub scan_split :
    (base acc : ℕ) (p : List ℕ)
    → base ≤ 36
    → (ds : List ℕ) × (p ≡ ds ++ (scan base acc p).1)
      × IsDigits base ds
      × ((scan base acc p).0 ≡ number base acc ds)
      × (base ≤ digit_value (char_at (scan base acc p).1 0))
unfolding scan
scan_split base acc [] b = ([], refl, tt, refl, b)
scan_split base acc (c ∷ p) b = elim (Bool-cases (ltb (digit_value c) base)) [
  | inl e ↦
      let (ds, split, digits, value, stop) = scan_split base (acc * base + digit_value c) p b in
      (c ∷ ds, rw e (ap (λ r. c ∷ r) split), (ground arith, digits), rw e value, rw e stop)
  | inr e ↦ ([], rw e, tt, rw e, rw e (ground arith))
]

-- Nothing is left behind the spaces of a string of spaces only.
pub at_end-skip : (p : List ℕ) → at_end (skip_white_spaces p) ≡ true → IsSpaces p
unfolding skip_white_spaces
at_end-skip [] h = tt
at_end-skip (c ∷ p) h = elim (Bool-cases (isspace c)) [
  | inl e ↦ (e, at_end-skip p (ground arith))
  | inr e ↦ absurd (ground arith)
]

-- ===== src/Parser/Switch/Accepted.antt =====
-- What `parser_read_arg_bool` makes of its words.
use rids.Prelude.{
  ℕ, ap, ◌∙◌, ◌≡◌, ◌≤◌, refl, Bool, true, false, List, [], ◌∷◌, ◌++◌, arith, Outcome, ok, err,
  einval,
}
use rids.Libc.{char_at, skip_white_spaces}
use rids.Libc.Scan.{IsSpaces, skip-append, skip-spaces, skip_stop}
use rids.Parser.Switch.{test_yes, test_on, test_no, test_off, closed, parser_read_arg_bool}

-- A word that is left out, or written in small or in capital letters.
pub data Form : Type 0 where
  absent small capital : Form

abbrev word_of : Form → List ℕ → List ℕ → List ℕ
word_of absent a b = []
word_of small a b = a
word_of capital a b = b

abbrev pub yes_word : Form → List ℕ
yes_word f = word_of f (b'y' ∷ b'e' ∷ b's' ∷ []) (b'Y' ∷ b'E' ∷ b'S' ∷ [])

abbrev pub on_word : Form → List ℕ
on_word f = word_of f (b'o' ∷ b'n' ∷ []) (b'O' ∷ b'N' ∷ [])

abbrev pub no_word : Form → List ℕ
no_word f = word_of f (b'n' ∷ b'o' ∷ []) (b'N' ∷ b'O' ∷ [])

abbrev pub off_word : Form → List ℕ
off_word f = word_of f (b'o' ∷ b'f' ∷ b'f' ∷ []) (b'O' ∷ b'F' ∷ b'F' ∷ [])

abbrev pub written_or : Form → Bool → Outcome Bool → Outcome Bool
written_or absent b r = r
written_or _ b r = ok b

-- No word begins with what spaces begin with.
no_letter : (ws : List ℕ) → IsSpaces ws → char_at ws 0 ≤ 32
no_letter [] h = omega arith
no_letter (c ∷ ws) h = ground arith

module _ (r : Outcome Bool) (ws : List ℕ) (h : IsSpaces ws) where
  off_lem : (f : Form) → test_off (off_word f ++ ws, r) ≡ (ws, written_or f false r)
  unfolding test_off
  off_lem absent = ground (arith, no_letter ws h)
  off_lem _ = refl

  no_lem :
      (f g : Form)
      → test_no (no_word f ++ (off_word g ++ ws), r) ≡ (off_word g ++ ws, written_or f false r)
  unfolding test_no
  no_lem absent absent = ground (arith, no_letter ws h)
  no_lem absent _ = refl
  no_lem _ _ = refl

  on_lem :
      (e f g : Form)
      → test_on (on_word e ++ (no_word f ++ (off_word g ++ ws)), r)
        ≡ (no_word f ++ (off_word g ++ ws), written_or e true r)
  unfolding test_on
  on_lem absent absent absent = ground (arith, no_letter ws h)
  on_lem absent absent _ = refl
  on_lem absent _ _ = refl
  on_lem _ _ _ = refl

  yes_lem :
      (d e f g : Form)
      → test_yes (yes_word d ++ (on_word e ++ (no_word f ++ (off_word g ++ ws))), r)
        ≡ (on_word e ++ (no_word f ++ (off_word g ++ ws)), written_or d true r)
  unfolding test_yes
  yes_lem absent absent absent absent = ground (arith, no_letter ws h)
  yes_lem absent absent absent _ = refl
  yes_lem absent absent _ _ = refl
  yes_lem absent _ _ _ = refl
  yes_lem _ _ _ _ = refl

abbrev pub switch_text : Form → Form → Form → Form → List ℕ → List ℕ
switch_text d e f g ws = yes_word d ++ (on_word e ++ (no_word f ++ (off_word g ++ ws)))

abbrev pub switch_value : Form → Form → Form → Form → Outcome Bool
switch_value d e f g =
    written_or g false (written_or f false (written_or e true (written_or d true (err einval))))

abbrev tests : List ℕ → Outcome Bool
tests p = closed (test_off (test_no (test_on (test_yes (p, err einval)))))

tests_lem :
    (d e f g : Form) (ws : List ℕ)
    → IsSpaces ws
    → tests (switch_text d e f g ws) ≡ switch_value d e f g
tests_lem d e f g ws h = rw (
  yes_lem (err einval) ws h d e f g,
  on_lem (written_or d true (err einval)) ws h e f g,
  no_lem (written_or e true (written_or d true (err einval))) ws h f g,
  off_lem (written_or f false (written_or e true (written_or d true (err einval)))) ws h g,
  skip-spaces ws h,
)

-- Past the spaces the text is itself, or nothing where no word is written.
skip-text :
    (d e f g : Form) (ws : List ℕ)
    → IsSpaces ws
    → (ws' : List ℕ) × IsSpaces ws'
      × (skip_white_spaces (switch_text d e f g ws) ≡ switch_text d e f g ws')
skip-text absent absent absent absent ws h = ([], tt, skip-spaces ws h)
skip-text absent absent absent _ ws h = (ws, h, skip_stop _ refl)
skip-text absent absent _ _ ws h = (ws, h, skip_stop _ refl)
skip-text absent _ _ _ ws h = (ws, h, skip_stop _ refl)
skip-text _ _ _ _ ws h = (ws, h, skip_stop _ refl)

-- Between spaces `parser_read_arg_bool` accepts any of the words yes, on, no and off in this order,
-- each left out or written in small or in capital letters, with nothing between them; the last word
-- decides, and where there is none the result is -EINVAL.
pub parser_read_arg_bool-words :
    (ws : List ℕ) (d e f g : Form) (ws' : List ℕ)
    → IsSpaces ws
    → IsSpaces ws'
    → parser_read_arg_bool (ws ++ switch_text d e f g ws') ≡ switch_value d e f g
unfolding parser_read_arg_bool
parser_read_arg_bool-words ws d e f g ws' h h' =
    let (rest, k, skipped) = skip-text d e f g ws' h' in
    ap tests (skip-append ws (switch_text d e f g ws') h ∙ skipped) ∙ tests_lem d e f g rest k

-- ===== src/Tests/Readers.antt =====
-- The readers of numbers and switches on concrete strings.
use rids.Prelude.{ℕ, ◌≡◌, refl, ◌<◌, ◌^◌, ◌↔◌, List, [], ◌∷◌, ◌++◌, arith, false, ok, err, einval}
use rids.Parser.Numbers.{parser_read_uint64, parser_read_uint8}
use rids.Parser.Numbers.Grammar.{
  Reads, tera, letter, parser_read_uint64-Reads, parser_read_uint64_overflow,
}
use rids.Parser.Numbers.Bounds.{decimal, u8, Narrows, narrow_reader-Narrows}
use rids.Parser.Switch.{parser_read_arg_bool}
use rids.Parser.Switch.Accepted.{absent, small, capital, parser_read_arg_bool-words}

-- 16777216
abbrev two_to_24 : List ℕ
two_to_24 = b'1' ∷ b'6' ∷ b'7' ∷ b'7' ∷ b'7' ∷ b'2' ∷ b'1' ∷ b'6' ∷ []

-- " 8k"
abbrev eight_k : List ℕ
eight_k = b' ' ∷ b'8' ∷ b'k' ∷ []

parser_read_uint64-Reads_example :
    ((v : ℕ) → (parser_read_uint64 eight_k ≡ ok v) ↔ Reads eight_k v)
    × ((parser_read_uint64 eight_k ≡ err einval) ↔ ((v : ℕ) → ¬ Reads eight_k v))
parser_read_uint64-Reads_example = parser_read_uint64-Reads eight_k

parser_read_uint64_overflow_example :
    (v : ℕ) × (parser_read_uint64 (two_to_24 ++ letter tera) ≡ ok v) × (v < 2 ^ 64)
parser_read_uint64_overflow_example =
    parser_read_uint64_overflow two_to_24 tera (ground arith) (ground arith) (ground arith)

narrow_reader-Narrows_example :
    Narrows (2 ^ 8) (parser_read_uint64 two_to_24) (parser_read_uint8 two_to_24)
narrow_reader-Narrows_example = narrow_reader-Narrows decimal u8 two_to_24

parser_read_arg_bool-words_example :
    parser_read_arg_bool (b' ' ∷ b'y' ∷ b'e' ∷ b's' ∷ b'N' ∷ b'O' ∷ b' ' ∷ []) ≡ ok false
parser_read_arg_bool-words_example =
    parser_read_arg_bool-words (b' ' ∷ []) small absent capital absent (b' ' ∷ []) (refl, tt)
      (refl, tt)

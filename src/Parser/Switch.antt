-- ===== src/Parser/Switch.antt =====
-- parser.c: `parser_read_arg_bool`.
pub mod Accepted
use rids.Prelude.{
  ℕ, Bool, true, false, ◌&&◌, ◌||◌, List, ◌==◌, if◌then◌else◌, drop, Outcome, ok, err, einval,
}
use rids.Libc.{at_end, char_at, skip_white_spaces}

-- The string begins with these letters, all of them small or all of them capital.
abbrev pub begins_2 : ℕ → ℕ → ℕ → ℕ → List ℕ → Bool
begins_2 a b a' b' p =
    (char_at p 0 == a && char_at p 1 == b) || (char_at p 0 == a' && char_at p 1 == b')

abbrev pub begins_3 : ℕ → ℕ → ℕ → ℕ → ℕ → ℕ → List ℕ → Bool
begins_3 a b c a' b' c' p =
    (char_at p 0 == a && char_at p 1 == b && char_at p 2 == c)
    || (char_at p 0 == a' && char_at p 1 == b' && char_at p 2 == c')

-- The pointer and `result` after one of the four tests.
abbrev pub Cursor : Type 0
Cursor = List ℕ × Outcome Bool

pub test_yes : Cursor → Cursor
test_yes (p, result) =
    if begins_3 b'y' b'e' b's' b'Y' b'E' b'S' p then (drop 3 p, ok true) else (p, result)

pub test_on : Cursor → Cursor
test_on (p, result) = if begins_2 b'o' b'n' b'O' b'N' p then (drop 2 p, ok true) else (p, result)

pub test_no : Cursor → Cursor
test_no (p, result) = if begins_2 b'n' b'o' b'N' b'O' p then (drop 2 p, ok false) else (p, result)

pub test_off : Cursor → Cursor
test_off (p, result) =
    if begins_3 b'o' b'f' b'f' b'O' b'F' b'F' p then (drop 3 p, ok false) else (p, result)

abbrev pub closed : Cursor → Outcome Bool
closed (p, result) = if at_end (skip_white_spaces p) then result else err einval

pub parser_read_arg_bool : List ℕ → Outcome Bool
unfolding test_yes test_on test_no test_off skip_white_spaces
parser_read_arg_bool s =
    closed (test_off (test_no (test_on (test_yes (skip_white_spaces s, err einval)))))

-- ===== src/Tests/Lists.antt =====
-- Hexadecimal strings, tokens, labels and addresses on concrete strings.
use rids.Prelude.{ℕ, ◌≡◌, refl, List, [], ◌∷◌, some, arith, true, ok}
use rids.Parser.HexString.{parse_hex_string}
use rids.Parser.HexString.RoundTrip.{encode, parse_hex_string-encode}
use rids.Parser.Tokens.{parse_tokenize_string}
use rids.Parser.Tokens.Words.{words, parse_tokenize_string-words}
use rids.Parser.Mpls.{parse_mpls_labels}
use rids.Parser.Mpls.Labels.{joined, further, parse_mpls_labels-joined}
use rids.Parser.Mac.{parse_mac_addr}
use rids.Parser.Mac.Addresses.{
  joined as mac_text, further as more_groups, parse_mac_addr-six, parse_mac_addr-three,
}

-- c0de
abbrev two_bytes : List ℕ
two_bytes = b'c' ∷ b'0' ∷ b'd' ∷ b'e' ∷ []

abbrev c0_de : List ℕ
c0_de = 192 ∷ 222 ∷ []

parse_hex_string-encode_example : parse_hex_string (some two_bytes) 8 ≡ ok (192 ∷ 222 ∷ [])
unfolding encode
parse_hex_string-encode_example =
    parse_hex_string-encode (192 ∷ 222 ∷ []) 8 (omega arith, (omega arith, tt)) (omega arith)
      (omega arith) (omega arith) refl

parse_hex_string_c0de : parse_hex_string (some two_bytes) 8 ≡ ok (192 ∷ 222 ∷ [])
unfolding encode
parse_hex_string_c0de =
    parse_hex_string-encode (192 ∷ 222 ∷ []) 8 (omega arith, (omega arith, tt)) (omega arith)
      (omega arith) (omega arith) refl

parse_tokenize_string-words_example :
    parse_tokenize_string (some (b' ' ∷ b'a' ∷ b'b' ∷ b' ' ∷ b' ' ∷ b'c' ∷ [])) true 2
    ≡ ok ((b'a' ∷ b'b' ∷ []) ∷ (b'c' ∷ []) ∷ [])
unfolding words
parse_tokenize_string-words_example =
    parse_tokenize_string-words (some (b' ' ∷ b'a' ∷ b'b' ∷ b' ' ∷ b' ' ∷ b'c' ∷ [])) true 2

-- 16:7
abbrev two_labels : List ℕ
two_labels = b'1' ∷ b'6' ∷ b':' ∷ b'7' ∷ []

abbrev labels_16_7 : List ℕ
labels_16_7 = 16 ∷ 7 ∷ []

parse_mpls_labels-joined_example : parse_mpls_labels two_labels 4 ≡ ok (16 ∷ 7 ∷ [])
unfolding joined further
parse_mpls_labels-joined_example =
    parse_mpls_labels-joined 4 ((b'1' ∷ b'6' ∷ []) ∷ (b'7' ∷ []) ∷ []) (ground arith)

parse_mpls_labels_16_7 : parse_mpls_labels two_labels 4 ≡ ok (16 ∷ 7 ∷ [])
unfolding joined further
parse_mpls_labels_16_7 =
    parse_mpls_labels-joined 4 ((b'1' ∷ b'6' ∷ []) ∷ (b'7' ∷ []) ∷ []) (ground arith)

-- 0:1a:2:3:4:ff
parse_mac_addr-six_example :
    parse_mac_addr (
      b'0' ∷ b':' ∷ b'1' ∷ b'a' ∷ b':' ∷ b'2' ∷ b':' ∷ b'3' ∷ b':' ∷ b'4' ∷ b':' ∷ b'f' ∷ b'f' ∷ [])
    ≡ ok (0 ∷ 26 ∷ 2 ∷ 3 ∷ 4 ∷ 255 ∷ [])
unfolding mac_text more_groups
parse_mac_addr-six_example =
    parse_mac_addr-six (b'0' ∷ []) (b'1' ∷ b'a' ∷ []) (b'2' ∷ []) (b'3' ∷ []) (b'4' ∷ [])
      (b'f' ∷ b'f' ∷ []) (ground arith)

-- 1234:0:ff
abbrev three_groups : List ℕ
three_groups = b'1' ∷ b'2' ∷ b'3' ∷ b'4' ∷ b':' ∷ b'0' ∷ b':' ∷ b'f' ∷ b'f' ∷ []

parse_mac_addr_1234_0_ff : parse_mac_addr three_groups ≡ ok (18 ∷ 52 ∷ 0 ∷ 0 ∷ 0 ∷ 255 ∷ [])
unfolding mac_text more_groups
parse_mac_addr_1234_0_ff =
    parse_mac_addr-three (b'1' ∷ b'2' ∷ b'3' ∷ b'4' ∷ []) (b'0' ∷ []) (b'f' ∷ b'f' ∷ [])
      (ground arith)

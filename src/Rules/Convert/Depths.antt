-- ===== src/Rules/Convert/Depths.antt =====
-- The depth of an IPv6 prefix, split into the depths of its four words.
use rids.Prelude.{ℕ, ◌+◌, ◌-◌, ◌*◌, ◌≡◌, [], ◌∷◌, none, some, ltb, if◌then◌else◌, arith}
use rids.Rules.Convert.{match_convert_ipv6_depth}

-- The part of a prefix of some depth that lies in word `i`.
abbrev pub word_depth : ℕ → ℕ → ℕ
word_depth depth i = if ltb depth (32 * i + 32) then depth - 32 * i else 32

-- A depth of at most 128 gives each of the four words its part of the prefix, at most 32; a larger
-- depth is refused.
pub match_convert_ipv6_depth_lem :
    (depth : ℕ)
    → match_convert_ipv6_depth depth ≡ (
        if ltb 128 depth
        then none
        else some (
            word_depth depth 0 ∷ word_depth depth 1 ∷ word_depth depth 2 ∷ word_depth depth 3 ∷ []))
unfolding match_convert_ipv6_depth
match_convert_ipv6_depth_lem depth = ground arith

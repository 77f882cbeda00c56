-- ===== src/Parser/Mac/Addresses.antt =====
-- What `parse_mac_addr` makes of groups of hexadecimal digits that are joined by ':'.
use rids.Prelude.{
  ℕ, zero, suc, ◌-◌, ◌^◌, ◌≤◌, ◌<◌, ◌≡◌, refl, ap, ◌∙◌, ◌≢◌, true, false, List, [], ◌∷◌, ◌++◌, map,
  none, some, arith, ◌==◌, if◌then◌else◌, length, All, Option-cases, inl, inr, ok,
}
use rids.Libc.{char_at, digit_value, strtoul, unsigned_conversion, ulong_max}
use rids.Libc.Scan.{IsDigits, number}
use rids.Libc.Conversions.{strtoul_hex}
use rids.Parser.Mac.{or_failure, prepend, groups, all_le, halves, my_ether_aton, parse_mac_addr}

-- Each group is written with at least one digit, and its value is at most `max`.
abbrev pub AreGroups : ℕ → List (List ℕ) → Type 0
AreGroups max [] = Unit {0}
AreGroups max (ds ∷ dss) = IsDigits 16 ds × (ds ≢ []) × (number 16 0 ds ≤ max) × AreGroups max dss

-- The groups behind the first, each with its ':'.
unfoldable pub further : List (List ℕ) → List ℕ
further [] = []
further (ds ∷ dss) = b':' ∷ (ds ++ further dss)

unfoldable pub joined : List (List ℕ) → List ℕ
joined [] = []
joined (ds ∷ dss) = ds ++ further dss

abbrev pub values : List (List ℕ) → List ℕ
values dss = map (number 16 0) dss

further_stops : (dss : List (List ℕ)) → 36 ≤ digit_value (char_at (further dss) 0)
unfolding further
further_stops [] = omega arith
further_stops (ds ∷ dss) = omega arith

-- One round of the loop that goes well.
groups_last :
    (n : ℕ) (a : List ℕ) (m : ℕ)
    → m ≤ ulong_max
    → strtoul 16 a ≡ some (unsigned_conversion false (m, []))
    → groups (suc n) a ≡ some (m ∷ [])
unfolding groups
groups_last n a m h e = ground arith

groups_more :
    (n : ℕ) (a rest : List ℕ) (m : ℕ)
    → m ≤ ulong_max
    → strtoul 16 a ≡ some (unsigned_conversion false (m, b':' ∷ rest))
    → groups (suc n) a ≡ prepend m (groups n rest)
unfolding groups
groups_more n a rest m h e = ground arith

groups-joined :
    (max n : ℕ) (ds : List ℕ) (dss : List (List ℕ))
    → max ≤ ulong_max
    → AreGroups max (ds ∷ dss)
    → length dss ≤ n
    → groups (suc n) (joined (ds ∷ dss)) ≡ some (values (ds ∷ dss))
unfolding joined further
groups-joined max n ds [] b h l =
    groups_last n (ds ++ []) (number 16 0 ds) (omega arith)
      (strtoul_hex ds [] h.0 h.1 (omega arith))
groups-joined max zero ds (es ∷ dss) b h l = absurd (omega arith)
groups-joined max (suc n) ds (es ∷ dss) b h l =
    groups_more (suc n) (ds ++ further (es ∷ dss)) (joined (es ∷ dss)) (number 16 0 ds)
      (omega arith) (strtoul_hex ds (further (es ∷ dss)) h.0 h.1 (omega arith))
    ∙ ap (prepend (number 16 0 ds)) (groups-joined max n es dss b h.3 (omega arith))

all_le-values : (max : ℕ) (dss : List (List ℕ)) → AreGroups max dss → all_le max (values dss) ≡ true
all_le-values max [] h = refl
all_le-values max (ds ∷ dss) h = ground (arith, all_le-values max dss h.3)

length-values : (dss : List (List ℕ)) → length (values dss) ≡ length dss
length-values [] = refl
length-values (ds ∷ dss) = ap suc (length-values dss)

-- What the end of `my_ether_aton` makes of the groups.
finish_groups :
    (a : List ℕ) (o : List ℕ)
    → groups 6 a ≡ some o
    → my_ether_aton a ≡ (
        if length o == 6
        then (if all_le (2 ^ 8 - 1) o then some o else none)
        else if length o == 3
        then (if all_le (2 ^ 16 - 1) o then some (halves o) else none)
        else none)
unfolding my_ether_aton
finish_groups a o e = rw (e, my_ether_aton)

-- Six groups of hexadecimal digits with ':' between them, each at most 0xff, are the six bytes of the
-- address.
pub parse_mac_addr-six :
    (a b c d e f : List ℕ)
    → AreGroups (2 ^ 8 - 1) (a ∷ b ∷ c ∷ d ∷ e ∷ f ∷ [])
    → parse_mac_addr (joined (a ∷ b ∷ c ∷ d ∷ e ∷ f ∷ []))
      ≡ ok (values (a ∷ b ∷ c ∷ d ∷ e ∷ f ∷ []))
unfolding parse_mac_addr
parse_mac_addr-six a b c d e f h =
    let gs = a ∷ b ∷ c ∷ d ∷ e ∷ f ∷ [] in
    ap or_failure (
      finish_groups (joined gs) (values gs)
        (groups-joined (2 ^ 8 - 1) 5 a (b ∷ c ∷ d ∷ e ∷ f ∷ []) (omega arith) h (omega arith)))
    ∙ rw (all_le-values (2 ^ 8 - 1) gs h)

-- Three groups of hexadecimal digits with ':' between them, each at most 0xffff, are two bytes of
-- the address each, the high one first.
pub parse_mac_addr-three :
    (a b c : List ℕ)
    → AreGroups (2 ^ 16 - 1) (a ∷ b ∷ c ∷ [])
    → parse_mac_addr (joined (a ∷ b ∷ c ∷ [])) ≡ ok (halves (values (a ∷ b ∷ c ∷ [])))
unfolding parse_mac_addr
parse_mac_addr-three a b c h =
    ap or_failure (
      finish_groups (joined (a ∷ b ∷ c ∷ [])) (values (a ∷ b ∷ c ∷ []))
        (groups-joined (2 ^ 16 - 1) 5 a (b ∷ c ∷ []) (omega arith) h (omega arith)))
    ∙ rw (all_le-values (2 ^ 16 - 1) (a ∷ b ∷ c ∷ []) h)

abbrev pub IsAddress : List ℕ → Type 0
IsAddress o = (length o ≡ 6) × All (λ b. b < 2 ^ 8) o

all_le-All : (max : ℕ) (o : List ℕ) → all_le max o ≡ true → All (λ b. b ≤ max) o
all_le-All max [] h = tt
all_le-All max (x ∷ o) h = (ground arith, all_le-All max o (ground arith))

halves-IsAddress : (o : List ℕ) → length o ≡ 3 → all_le (2 ^ 16 - 1) o ≡ true → IsAddress (halves o)
halves-IsAddress (a ∷ b ∷ c ∷ []) l h = ground arith
halves-IsAddress [] l h = absurd (omega arith)
halves-IsAddress (a ∷ []) l h = absurd (omega arith)
halves-IsAddress (a ∷ b ∷ []) l h = absurd (omega arith)
halves-IsAddress (a ∷ b ∷ c ∷ d ∷ o) l h = absurd (omega arith)

bytes-IsAddress : (o : List ℕ) → length o ≡ 6 → all_le (2 ^ 8 - 1) o ≡ true → IsAddress o
bytes-IsAddress o l h = (l, bytes o h)
  where
    bytes : (o : List ℕ) → all_le (2 ^ 8 - 1) o ≡ true → All (λ b. b < 2 ^ 8) o
    bytes [] h = tt
    bytes (x ∷ o) h = (ground arith, bytes o (ground arith))

-- Whatever the token, an accepted address has six bytes.
pub parse_mac_addr-IsAddress :
    (token : List ℕ) (o : List ℕ) → parse_mac_addr token ≡ ok o → IsAddress o
unfolding parse_mac_addr
parse_mac_addr-IsAddress token o h = elim (Option-cases (groups 6 token)) [
  | inl e ↦ absurd (ground arith)
  | inr (g, e) ↦ ground (arith, finish_groups token g e, bytes-IsAddress g, halves-IsAddress g)
]

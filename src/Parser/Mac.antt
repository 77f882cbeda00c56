-- ===== src/Parser/Mac.antt =====
-- parser.c: `parse_mac_addr` and `my_ether_aton`.
pub mod Addresses
use rids.Prelude.{
  ℕ, zero, suc, ◌/◌, ◌%◌, ◌^◌, Bool, true, false, not, ◌&&◌, ◌||◌, List, [], ◌∷◌, Option, none,
  some, leb, ◌==◌, ◌-◌, if◌then◌else◌, length, drop, Outcome, ok, err, failure,
}
use rids.Libc.{at_end, char_at, strtoul, Conversion}

abbrev pub prepend : ℕ → Option (List ℕ) → Option (List ℕ)
prepend o none = none
prepend o (some os) = some (o ∷ os)

-- The loop that fills o[], with the places left in it; junk behind the last place is an error.
pub groups : ℕ → List ℕ → Option (List ℕ)
groups zero a = none
groups (suc n) a = elim (strtoul 16 a) [
  | none ↦ none
  | some c ↦ elim (c.range || not (at_end c.end || char_at c.end 0 == b':')) [
    | true ↦ none
    | false ↦ elim (at_end c.end) [
      | true ↦ some (c.value ∷ [])
      | false ↦ prepend c.value (groups n (drop 1 c.end))
    ]
  ]
]

abbrev pub all_le : ℕ → List ℕ → Bool
all_le max [] = true
all_le max (o ∷ os) = leb o max && all_le max os

-- o[i] as two bytes, the high one first
abbrev pub halves : List ℕ → List ℕ
halves [] = []
halves (o ∷ os) = o / 2 ^ 8 ∷ o % 2 ^ 8 ∷ halves os

-- The six bytes of `ether_addr.addr_bytes`.
pub my_ether_aton : List ℕ → Option (List ℕ)
unfolding groups
my_ether_aton a = elim (groups 6 a) [
  | none ↦ none
  | some o ↦
      if length o == 6
      then (if all_le (2 ^ 8 - 1) o then some o else none)
      else if length o == 3
      then (if all_le (2 ^ 16 - 1) o then some (halves o) else none)
      else none
]

abbrev pub or_failure : Option (List ℕ) → Outcome (List ℕ)
or_failure none = err failure
or_failure (some a) = ok a

pub parse_mac_addr : List ℕ → Outcome (List ℕ)
unfolding my_ether_aton
parse_mac_addr token = or_failure (my_ether_aton token)

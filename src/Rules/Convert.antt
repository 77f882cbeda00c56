-- ===== src/Rules/Convert.antt =====
-- thread.c: `match_convert`, the match of a rule as the key of a table of the data plane.
pub mod Depths
pub mod Keys
use rids.Prelude.{
  ℕ, zero, suc, ◌+◌, ◌-◌, ◌*◌, ◌/◌, ◌^◌, Bool, true, false, List, [], ◌∷◌, ◌++◌, Option, none, some,
  ltb, ◌==◌, if◌then◌else◌, take, get_or,
}
use rids.Rules.Match.{
  Addresses, ipv4, ipv6, AclMatch, AclRawMatch, LpmAddress, lpm_ipv4, lpm_ipv6, Match, acl, acl_raw,
  array, hash, lpm, stub,
}

-- The four depths of the words of an IPv6 address.
unfoldable pub match_convert_ipv6_depth : ℕ → Option (List ℕ)
match_convert_ipv6_depth depth =
    if ltb 128 depth
    then none
    else if depth / 32 == 0
    then some (depth ∷ 0 ∷ 0 ∷ 0 ∷ [])
    else if depth / 32 == 1
    then some (32 ∷ (depth - 32) ∷ 0 ∷ 0 ∷ [])
    else if depth / 32 == 2
    then some (32 ∷ 32 ∷ (depth - 64) ∷ 0 ∷ [])
    else if depth / 32 == 3
    then some (32 ∷ 32 ∷ 32 ∷ (depth - 96) ∷ [])
    else if depth / 32 == 4
    then some (32 ∷ 32 ∷ 32 ∷ 32 ∷ [])
    else none

-- A field_value: value and mask_range.
pub record Field : Type 0 where
  pub value : ℕ
  pub mask_range : ℕ

-- `union table_rule_match_low_level`. `acl_add` has the category mask, the priority and the fields.
-- Of the view acl_delete, what was written before through the view acl_add is kept beside it: the
-- category mask in `acl_delete`; the category mask and the fields from 1 on in `acl_raw_delete`,
-- where only field 0 is written through acl_delete. The offsets of the two views are DPDK's.
pub data MatchLl : Type 0 where
  acl_add : ℕ → ℕ → List Field → MatchLl
  acl_delete : ℕ → List Field → MatchLl
  acl_raw_delete : Field → ℕ → List Field → MatchLl
  array_key : ℕ → MatchLl
  hash_key : List ℕ → MatchLl
  lpm_key : LpmAddress → ℕ → MatchLl

abbrev field : ℕ → ℕ → Field
field value mask_range = record { value = value; mask_range = mask_range }

-- rte_be_to_cpu_32
abbrev pub be_word : List ℕ → ℕ → ℕ
be_word bytes i =
    ((get_or bytes (4 * i) 0 * 256 + get_or bytes (4 * i + 1) 0) * 256 + get_or bytes (4 * i + 2) 0)
      * 256
    + get_or bytes (4 * i + 3) 0

-- The four words of an address with their depths.
abbrev pub address_fields : List ℕ → List ℕ → List Field
address_fields bytes depths =
    field (be_word bytes 0) (get_or depths 0 0)
    ∷ field (be_word bytes 1) (get_or depths 1 0)
    ∷ field (be_word bytes 2) (get_or depths 2 0)
    ∷ field (be_word bytes 3) (get_or depths 3 0)
    ∷ []

abbrev port_fields : AclMatch → List Field
port_fields m = field m.sp0 m.sp1 ∷ field m.dp0 m.dp1 ∷ []

abbrev with_depths :
    Option (List ℕ) → Option (List ℕ) → (List ℕ → List ℕ → List Field) → Option (List Field)
with_depths (some sa) (some da) fields = some (fields sa da)
with_depths _ _ fields = none

-- The fields that both branches on `add` write for IPv4 and IPv6.
abbrev pub acl_fields : AclMatch → Addresses → Option (List Field)
acl_fields m (ipv4 sa da) =
    some (field m.proto m.proto_mask ∷ field sa m.sa_depth ∷ field da m.da_depth ∷ port_fields m)
acl_fields m (ipv6 sa da) =
    with_depths (match_convert_ipv6_depth m.sa_depth) (match_convert_ipv6_depth m.da_depth)
      (λ sa_depth da_depth.
        field m.proto m.proto_mask
        ∷ (address_fields sa sa_depth ++ (address_fields da da_depth ++ port_fields m)))

-- The loop over the filters of a raw match.
abbrev pub raw_fields : List ℕ → List ℕ → List Field
raw_fields [] mask = []
raw_fields (o ∷ origin) [] = field o 0 ∷ raw_fields origin []
raw_fields (o ∷ origin) (m ∷ mask) = field o m ∷ raw_fields origin mask

-- `true` for add. `none` is the result -1.
abbrev pub acl_key : Bool → ℕ → Option (List Field) → Option MatchLl
acl_key add priority none = none
acl_key true priority (some fields) = some (acl_add 1 priority fields)
acl_key false priority (some fields) = some (acl_delete 1 fields)

abbrev raw_key : Bool → AclRawMatch → MatchLl
raw_key true m =
    acl_add m.category_mask m.priority
      (field m.proto m.proto_mask ∷ raw_fields (take m.n_filter m.origin) (take m.n_filter m.mask))
raw_key false m =
    acl_raw_delete (field m.proto m.proto_mask) m.category_mask
      (raw_fields (take m.n_filter m.origin) (take m.n_filter m.mask))

unfoldable pub match_convert : Match → Bool → Option MatchLl
unfolding match_convert_ipv6_depth
match_convert (acl m) add = acl_key add m.priority (acl_fields m m.addresses)
match_convert (acl_raw m) add = some (raw_key add m)
match_convert (array pos) add = some (array_key pos)
match_convert (hash key) add = some (hash_key key)
match_convert (lpm address depth) add = some (lpm_key address depth)
match_convert stub add = none

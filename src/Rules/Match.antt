-- ===== src/Rules/Match.antt =====
-- pipeline.h: the matches of rules, `struct table_rule_match`, with the union as the table type tells.
use rids.Prelude.{
  ℕ, ◌≡◌, refl, subst, Bool, true, false, ◌&&◌, List, [], ◌∷◌, arith, ◌==◌, str_eq, str_eq_refl,
  str_eq_sound, Equality,
}

pub data TableType : Type 0 where
  table_acl table_array table_hash table_lpm table_stub : TableType

-- The addresses of an ACL match: ip_version 1 has two words, ip_version 0 two times 16 bytes.
pub data Addresses : Type 0 where
  ipv4 : ℕ → ℕ → Addresses
  ipv6 : List ℕ → List ℕ → Addresses

pub record AclMatch : Type 0 where
  pub addresses : Addresses
  pub sa_depth : ℕ
  pub da_depth : ℕ
  pub sp0 : ℕ
  pub sp1 : ℕ
  pub dp0 : ℕ
  pub dp1 : ℕ
  pub proto : ℕ
  pub proto_mask : ℕ
  pub priority : ℕ

-- ip_version 2: words of the packet, with masks.
pub record AclRawMatch : Type 0 where
  pub origin : List ℕ
  pub mask : List ℕ
  pub n_filter : ℕ
  pub category_mask : ℕ
  pub proto : ℕ
  pub proto_mask : ℕ
  pub priority : ℕ

pub data LpmAddress : Type 0 where
  lpm_ipv4 : ℕ → LpmAddress
  lpm_ipv6 : List ℕ → LpmAddress

pub data Match : Type 0 where
  acl : AclMatch → Match
  acl_raw : AclRawMatch → Match
  array : ℕ → Match
  hash : List ℕ → Match
  lpm : LpmAddress → ℕ → Match
  stub : Match

abbrev pub match_type : Match → TableType
match_type (acl m) = table_acl
match_type (acl_raw m) = table_acl
match_type (array pos) = table_array
match_type (hash key) = table_hash
match_type (lpm address depth) = table_lpm
match_type stub = table_stub

-- memcmp (a, b) == 0
abbrev same_addresses : Addresses → Addresses → Bool
same_addresses (ipv4 sa da) (ipv4 sa' da') = sa == sa' && da == da'
same_addresses (ipv6 sa da) (ipv6 sa' da') = str_eq sa sa' && str_eq da da'
same_addresses _ _ = false

abbrev acl_numbers : AclMatch → List ℕ
acl_numbers m =
    m.sa_depth ∷ m.da_depth ∷ m.sp0 ∷ m.sp1 ∷ m.dp0 ∷ m.dp1 ∷ m.proto ∷ m.proto_mask ∷ m.priority
    ∷ []

abbrev raw_numbers : AclRawMatch → List ℕ
raw_numbers m = m.n_filter ∷ m.category_mask ∷ m.proto ∷ m.proto_mask ∷ m.priority ∷ []

abbrev same_address : LpmAddress → LpmAddress → Bool
same_address (lpm_ipv4 a) (lpm_ipv4 b) = a == b
same_address (lpm_ipv6 a) (lpm_ipv6 b) = str_eq a b
same_address _ _ = false

abbrev pub same_match : Match → Match → Bool
same_match (acl a) (acl b) =
    same_addresses a.addresses b.addresses && str_eq (acl_numbers a) (acl_numbers b)
same_match (acl_raw a) (acl_raw b) =
    str_eq a.origin b.origin && str_eq a.mask b.mask && str_eq (raw_numbers a) (raw_numbers b)
same_match (array a) (array b) = a == b
same_match (hash a) (hash b) = str_eq a b
same_match (lpm a d) (lpm b e) = same_address a b && d == e
same_match stub stub = true
same_match _ _ = false

addresses_eq : (a b : Addresses) → same_addresses a b ≡ true → a ≡ b
addresses_eq (ipv4 sa da) (ipv4 sa' da') h = ground arith
addresses_eq (ipv6 sa da) (ipv6 sa' da') h =
    ground (arith, str_eq_sound sa sa', str_eq_sound da da')
addresses_eq (ipv4 sa da) (ipv6 sa' da') h = absurd (ground arith)
addresses_eq (ipv6 sa da) (ipv4 sa' da') h = absurd (ground arith)

address_eq : (a b : LpmAddress) → same_address a b ≡ true → a ≡ b
address_eq (lpm_ipv4 a) (lpm_ipv4 b) h = ground arith
address_eq (lpm_ipv6 a) (lpm_ipv6 b) h = ground (arith, str_eq_sound a b)
address_eq (lpm_ipv4 a) (lpm_ipv6 b) h = absurd (ground arith)
address_eq (lpm_ipv6 a) (lpm_ipv4 b) h = absurd (ground arith)

pub same_match_sound : (a b : Match) → same_match a b ≡ true → a ≡ b
same_match_sound (acl a) (acl b) h =
    ground
      (arith, addresses_eq a.addresses b.addresses, str_eq_sound (acl_numbers a) (acl_numbers b))
same_match_sound (acl_raw a) (acl_raw b) h = ground (
  arith,
  str_eq_sound a.origin b.origin,
  str_eq_sound a.mask b.mask,
  str_eq_sound (raw_numbers a) (raw_numbers b),
)
same_match_sound (array a) (array b) h = ground arith
same_match_sound (hash a) (hash b) h = ground (arith, str_eq_sound a b)
same_match_sound (lpm a d) (lpm b e) h = ground (arith, address_eq a b)
same_match_sound stub stub h = refl
same_match_sound _ _ h = cc

addresses_refl : (a : Addresses) → same_addresses a a ≡ true
addresses_refl (ipv4 sa da) = ground arith
addresses_refl (ipv6 sa da) = ground (arith, str_eq_refl sa, str_eq_refl da)

address_refl : (a : LpmAddress) → same_address a a ≡ true
address_refl (lpm_ipv4 a) = ground arith
address_refl (lpm_ipv6 a) = str_eq_refl a

pub same_match_refl : (a : Match) → same_match a a ≡ true
same_match_refl (acl a) = ground (arith, addresses_refl a.addresses, str_eq_refl (acl_numbers a))
same_match_refl (acl_raw a) =
    ground (arith, str_eq_refl a.origin, str_eq_refl a.mask, str_eq_refl (raw_numbers a))
same_match_refl (array a) = ground arith
same_match_refl (hash a) = str_eq_refl a
same_match_refl (lpm a d) = ground (arith, address_refl a)
same_match_refl stub = refl

instance abbrev pub match_equality : Equality Match
match_equality = record {
  same = same_match;
  same_iff =
      λ a b. (same_match_sound a b, λ e. subst (λ c. same_match a c ≡ true) e (same_match_refl a));
}

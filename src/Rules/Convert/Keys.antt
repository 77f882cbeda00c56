-- ===== src/Rules/Convert/Keys.antt =====
-- The key under which a match is added and the key under which it is deleted.
use rids.Prelude.{◌≡◌, true, false, some, arith, Option-cases, inl, inr}
use rids.Rules.Match.{Match, acl, acl_raw, array, hash, lpm, stub}
use rids.Rules.Convert.{MatchLl, acl_add, acl_delete, acl_fields, match_convert}

-- The key that deletes what a key adds: for an ACL its fields, without the priority.
abbrev pub delete_key : MatchLl → MatchLl
delete_key (acl_add category priority fields) = acl_delete category fields
delete_key key = key

abbrev pub IsRaw : Match → Type 0
IsRaw (acl_raw m) = Unit
IsRaw _ = ⊥

-- Of every match but a raw one, the key to delete it is the one that deletes what its key to add it
-- adds.
pub match_convert-delete_key :
    (match : Match) (key : MatchLl)
    → ¬ IsRaw match
    → match_convert match true ≡ some key
    → match_convert match false ≡ some (delete_key key)
unfolding match_convert
match_convert-delete_key (acl m) key n h = elim (Option-cases (acl_fields m m.addresses)) [
  | inl e ↦ absurd (ground arith)
  | inr (fields, e) ↦ rw e (ground arith)
]
match_convert-delete_key (acl_raw m) key n h = absurd (n tt)
match_convert-delete_key (array pos) key n h = ground arith
match_convert-delete_key (hash bytes) key n h = ground arith
match_convert-delete_key (lpm address depth) key n h = ground arith
match_convert-delete_key stub key n h = absurd (ground arith)

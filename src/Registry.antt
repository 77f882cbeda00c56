-- ===== src/Registry.antt =====
-- The lists of named objects that mempool.c, swq.c, link.c, tap.c, kni.c, cryptodev.c, tmgr.c,
-- action.c and pipeline.c keep: each is a TAILQ of nodes with a name, searched by `strcmp` from the
-- head and extended at the tail. The names are copied by `strlcpy` into arrays of NAME_SIZE bytes
-- (common.h). A null name is `none`.
pub mod Laws
pub mod Resources
pub mod Creation
use rids.Prelude.{
  ℕ, ◌-◌, Bool, true, false, List, [], ◌∷◌, ◌++◌, Option, none, some, if◌then◌else◌, str_eq, take,
}

abbrev pub name_size : ℕ
name_size = 64

-- strlcpy(node->name, name, sizeof(node->name))
abbrev pub stored_name : List ℕ → List ℕ
stored_name name = take (name_size - 1) name

abbrev pub is_some {ℓ} : {A : Type ℓ} → Option A → Bool
is_some none = false
is_some (some a) = true

module _ {ℓ} {A : Type ℓ} (name_of : A → List ℕ) where
  -- TAILQ_FOREACH(x, &list, node) if (strcmp(x->name, name) == 0) return x;
  unfoldable pub search_list : List ℕ → List A → Option A
  search_list name [] = none
  search_list name (x ∷ xs) = if str_eq (name_of x) name then some x else search_list name xs

  -- The functions X_find.
  unfoldable pub find : Option (List ℕ) → List A → Option A
  unfolding search_list
  find none xs = none
  find (some name) xs = search_list name xs

-- TAILQ_INSERT_TAIL(&list, x, node)
abbrev pub insert_tail {ℓ} : {A : Type ℓ} → List A → A → List A
insert_tail xs x = xs ++ x ∷ []

-- What the tests on an int that DPDK or the kernel returns can tell apart: 0, a positive number,
-- -ENOTSUP and the other negative numbers.
pub data RteStatus : Type 0 where
  success positive enotsup negative : RteStatus

-- if (status)
abbrev pub is_nonzero : RteStatus → Bool
is_nonzero success = false
is_nonzero _ = true

-- if (status < 0)
abbrev pub is_negative : RteStatus → Bool
is_negative enotsup = true
is_negative negative = true
is_negative _ = false

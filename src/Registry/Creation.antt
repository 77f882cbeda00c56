-- ===== src/Registry/Creation.antt =====
-- What the functions X_create have in common: the list of objects and the resources handed out for
-- them, and how a creation changes both.
use mathlib.Core.List.{reverse, reverse-append, map-append}
use rids.Prelude.{
  ℕ, ◌<◌, ◌≡◌, Bool, true, false, if◌then◌else◌, refl, subst, ap, sym, ◌∙◌, List, [], ◌∷◌, map,
  Option, none, some, length, arith, All,
}
use rids.Registry.{is_some, name_size, stored_name, search_list, insert_tail}
use rids.Registry.Laws.{IsUnique, AreStored, insert_tail-IsUnique, stored_name_short}
use rids.Registry.Resources.{acquire, release, release-acquire}

-- The list of a kind of objects, and the live resources of that kind, newest first.
pub record Objects {ℓ} (A : Type ℓ) : Type ℓ where
  pub nodes : List A
  pub live : List ℕ

abbrev pub empty {ℓ} : {A : Type ℓ} → Objects A
empty = record { nodes = []; live = [] }

-- One creation. Where no object is returned nothing has changed: what was acquired on the way is
-- released. Where one is returned, its name was not in use, it stands at the tail, and its resource
-- is the only new one.
abbrev pub Creates {ℓ} :
    {A : Type ℓ} (name_of : A → List ℕ) (handle_of : A → ℕ)
    → Option (List ℕ)
    → Objects A
    → Objects A × Option A
    → Type ℓ
Creates name_of handle_of name before (after, none) = after ≡ before
Creates name_of handle_of name before (after, some x) =
    (after
      ≡ record { nodes = insert_tail before.nodes x; live = acquire (handle_of x) before.live })
    × (n : List ℕ) × (name ≡ some n)
    × (search_list name_of n before.nodes ≡ none)
    × (name_of x ≡ stored_name n)

-- The end of the functions X_create, with the resource of the node acquired: the node is allocated,
-- filled in and added to the list; if `calloc` fails, the resource is released.
unfoldable pub add_node {ℓ} : {A : Type ℓ} → Bool → ℕ → A → Objects A → Objects A × Option A
unfolding release
add_node calloc handle node st =
    let acquired = acquire handle st.live in
    if calloc
    then (record { nodes = insert_tail st.nodes node; live = acquired }, some node)
    else (record { nodes = st.nodes; live = release handle acquired }, none)

pub add_node-Creates {ℓ} :
    {A : Type ℓ} (name_of : A → List ℕ) (handle_of : A → ℕ) (calloc : Bool) (name : List ℕ)
    (node : A) (st : Objects A)
    → is_some (search_list name_of name st.nodes) ≡ false
    → name_of node ≡ stored_name name
    → Creates name_of handle_of (some name) st (add_node calloc (handle_of node) node st)
unfolding add_node
add_node-Creates name_of handle_of true name node st h e = (refl, name, refl, ground arith, e)
add_node-Creates name_of handle_of false name node st h e =
    ap (λ live. record { nodes = st.nodes; live = live }) (release-acquire (handle_of node) st.live)

-- The names are distinct and fit their arrays, and the live resources are those of the objects.
pub record IsWell {ℓ} {A : Type ℓ} (name_of : A → List ℕ) (handle_of : A → ℕ) (st : Objects A)
    : Type ℓ where
  pub unique : IsUnique name_of st.nodes
  pub stored : AreStored name_of st.nodes
  pub owned : st.live ≡ reverse (map handle_of st.nodes)

abbrev pub IsShort : Option (List ℕ) → Type 0
IsShort none = Unit
IsShort (some n) = length n < name_size

All-insert_tail {ℓ κ} :
    {A : Type ℓ} (P : A → Type κ) (xs : List A) (x : A) → All P xs → P x → All P (insert_tail xs x)
All-insert_tail P [] x h p = (p, tt)
All-insert_tail P (y ∷ xs) x h p = (h.0, All-insert_tail P xs x h.1 p)

module _ {ℓ} {A : Type ℓ} (name_of : A → List ℕ) (handle_of : A → ℕ) where
  owned-insert_tail :
      (xs : List A) (x : A)
      → reverse (map handle_of (insert_tail xs x)) ≡ handle_of x ∷ reverse (map handle_of xs)
  owned-insert_tail xs x =
      rw (map-append handle_of xs (x ∷ [])) (reverse-append (map handle_of xs) (handle_of x ∷ []))

  pub Creates-IsWell :
      (name : Option (List ℕ)) (st : Objects A) (r : Objects A × Option A)
      → Creates name_of handle_of name st r
      → IsShort name
      → IsWell name_of handle_of st
      → IsWell name_of handle_of r.0
  Creates-IsWell name st (after, none) c s w = rw c w
  Creates-IsWell name st (after, some x) (e, n, is, fresh, stored) s w =
      let short : length n < name_size = subst IsShort is s in
      let own_name : name_of x ≡ n = stored ∙ stored_name_short n short in
      rw e (record {
        unique = insert_tail-IsUnique name_of st.nodes x w.unique (rw own_name fresh);
        stored =
            All-insert_tail (λ y. length (name_of y) < name_size) st.nodes x w.stored
              (rw own_name short);
        owned = ap (acquire (handle_of x)) w.owned ∙ sym (owned-insert_tail st.nodes x);
      })

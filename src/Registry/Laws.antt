-- ===== src/Registry/Laws.antt =====
-- Searching and extending a list of named objects.
use rids.Prelude.{
  ℕ, ◌<◌, ◌≤◌, ◌≡◌, refl, ap, sym, ◌∙◌, List, [], ◌∷◌, none, some, arith, if◌then◌else◌, str_eq,
  str_eq_sound, length, length-take_le, take_all, All, Bool-cases, inl, inr,
}
use rids.Registry.{name_size, stored_name, search_list, insert_tail}

module _ {ℓ} {A : Type ℓ} (name_of : A → List ℕ) where
  -- No two objects have one name.
  abbrev pub IsUnique : List A → Type ℓ
  IsUnique [] = Unit
  IsUnique (x ∷ xs) = (search_list name_of (name_of x) xs ≡ none) × IsUnique xs

  abbrev pub AreStored : List A → Type 0
  AreStored xs = All (λ x. length (name_of x) < name_size) xs

  -- An object found has the name.
  pub search_list-name :
      (name : List ℕ) (xs : List A) (x : A)
      → search_list name_of name xs ≡ some x
      → name_of x ≡ name
  unfolding search_list
  search_list-name name [] x h = absurd (ground arith)
  search_list-name name (y ∷ xs) x h = elim (Bool-cases (str_eq (name_of y) name)) [
    | inl e ↦ ground (arith, str_eq_sound (name_of y) name e)
    | inr e ↦ search_list-name name xs x (ground arith)
  ]

  -- A new object at the tail is found if nothing before it has the name.
  pub search_list-insert_tail :
      (name : List ℕ) (xs : List A) (x : A)
      → search_list name_of name (insert_tail xs x) ≡ (elim (search_list name_of name xs) [
        | some y ↦ some y
        | none ↦ if str_eq (name_of x) name then some x else none
      ])
  unfolding search_list
  search_list-insert_tail name [] x = refl
  search_list-insert_tail name (y ∷ xs) x = ground (arith, search_list-insert_tail name xs x)

  str_eq_sym : (a b : List ℕ) → str_eq a b ≡ str_eq b a
  str_eq_sym a b = elim (Bool-cases (str_eq a b)) [
    | inl e ↦ rw (str_eq_sound a b e)
    | inr e ↦ elim (Bool-cases (str_eq b a)) [
      | inl e' ↦ rw (str_eq_sound b a e')
      | inr e' ↦ e ∙ sym e'
    ]
  ]

  pub insert_tail-IsUnique :
      (xs : List A) (x : A)
      → IsUnique xs
      → search_list name_of (name_of x) xs ≡ none
      → IsUnique (insert_tail xs x)
  unfolding search_list
  insert_tail-IsUnique [] x u h = (refl, tt)
  insert_tail-IsUnique (y ∷ xs) x u h = elim (Bool-cases (str_eq (name_of y) (name_of x))) [
    | inl e ↦ absurd (ground arith)
    | inr e ↦ (
      ground (arith, search_list-insert_tail (name_of y) xs x, str_eq_sym (name_of x) (name_of y)),
      insert_tail-IsUnique xs x u.1 (ground arith),
    )
  ]

  -- A name that the arrays cannot hold is never found.
  pub search_list_long :
      (name : List ℕ) (xs : List A)
      → AreStored xs
      → name_size ≤ length name
      → search_list name_of name xs ≡ none
  unfolding search_list
  search_list_long name [] h l = refl
  search_list_long name (x ∷ xs) h l = elim (Bool-cases (str_eq (name_of x) name)) [
    | inl e ↦ absurd (omega (arith, h.0, ap length (str_eq_sound (name_of x) name e)))
    | inr e ↦ rw e (search_list_long name xs h.1 l)
  ]

pub stored_name_short : (name : List ℕ) → length name < name_size → stored_name name ≡ name
stored_name_short name h = take_all 63 name (omega arith)

pub length-stored_name : (name : List ℕ) → length (stored_name name) < name_size
length-stored_name name = omega (arith, length-take_le 63 name)

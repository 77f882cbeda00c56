-- ===== src/Rules/Store.antt =====
-- The rules of a table as a function from matches to rules.
use rids.Prelude.{
  ◌≡◌, refl, sym, subst, ◌∙◌, fun_ext, true, false, List, [], ◌∷◌, ◌++◌, Option, none, some,
  if◌then◌else◌, arith, Equality, same_refl, same_eq, Bool-cases, Option-cases, inl, inr,
}
use rids.Rules.{Rule, find_rule, replace_first, remove_first, add_rule, delete_rule}

module _ {M : Type 0} ⦃q : Equality M⦄ where
  differ : (a b m : M) → q.same a b ≡ false → q.same a m ≡ true → q.same b m ≡ false
  differ a b m n e = elim (Bool-cases (q.same b m)) [
    | inl e' ↦ absurd (ground (arith, subst (λ z. q.same a z ≡ true) (sym (same_eq e')) e))
    | inr e' ↦ e'
  ]

module _ {M A : Type 0} ⦃q : Equality M⦄ where
  -- A function, changed at one match.
  abbrev pub update : (M → Option (Rule M A)) → M → Option (Rule M A) → M → Option (Rule M A)
  update f m v m' = if q.same m m' then v else f m'

  -- No match has two rules.
  abbrev pub AreDistinct : List (Rule M A) → Type 0
  AreDistinct [] = Unit
  AreDistinct (r ∷ rules) = (find_rule rules r.match ≡ none) × AreDistinct rules

  pub find_rule-match :
      (rules : List (Rule M A)) (m : M) (r : Rule M A) → find_rule rules m ≡ some r → r.match ≡ m
  unfolding find_rule
  find_rule-match [] m r h = absurd (ground arith)
  find_rule-match (x ∷ rules) m r h = elim (Bool-cases (q.same x.match m)) [
    | inl e ↦ let m-eq : x.match ≡ m = same_eq e in ground arith
    | inr e ↦ find_rule-match rules m r (ground arith)
  ]

  find_rule-append :
      (rules : List (Rule M A)) (new : Rule M A) (m : M)
      → find_rule rules new.match ≡ none
      → find_rule (rules ++ new ∷ []) m ≡ update (find_rule rules) new.match (some new) m
  unfolding find_rule
  find_rule-append [] new m h = refl
  find_rule-append (x ∷ rules) new m h = elim (Bool-cases (q.same x.match m)) [
    | inl e ↦ elim (Bool-cases (q.same new.match m)) [
      | inl e' ↦
          let eq : x.match ≡ new.match = same_eq e ∙ sym (same_eq e') in
          let hit : q.same x.match new.match ≡ true =
            subst (λ z. q.same x.match z ≡ true) eq (same_refl x.match) in
          absurd (ground arith)
      | inr e' ↦ rw (e, e') refl
    ]
    | inr e ↦ rw e (find_rule-append rules new m (ground arith))
  ]

  find_rule-replace_first :
      (rules : List (Rule M A)) (new : Rule M A) (m : M) (old : Rule M A)
      → find_rule rules new.match ≡ some old
      → find_rule (replace_first rules new) m ≡ update (find_rule rules) new.match (some new) m
  unfolding find_rule replace_first
  find_rule-replace_first [] new m old h = absurd (ground arith)
  find_rule-replace_first (x ∷ rules) new m old h = elim (Bool-cases (q.same x.match new.match)) [
    | inl e ↦ elim (Bool-cases (q.same new.match m)) [
      | inl e' ↦ rw (e, e') refl
      | inr e' ↦
          let e'' : q.same x.match m ≡ false =
            subst (λ z. q.same z m ≡ false) (sym (same_eq e)) e' in
          rw (e, e', e'') refl
    ]
    | inr e ↦ elim (Bool-cases (q.same x.match m)) [
      | inl e' ↦
          let e'' : q.same new.match m ≡ false = differ x.match new.match m e e' in
          rw (e, e', e'') refl
      | inr e' ↦ rw (e, e') (find_rule-replace_first rules new m old (ground arith))
    ]
  ]

  -- Adding a rule is the update at its match.
  pub find_rule-add_rule :
      (rules : List (Rule M A)) (new : Rule M A)
      → find_rule (add_rule rules new) ≡ update (find_rule rules) new.match (some new)
  unfolding add_rule
  find_rule-add_rule rules new = fun_ext λ m. elim (Option-cases (find_rule rules new.match)) [
    | inl e ↦ rw (e, add_rule) (find_rule-append rules new m e)
    | inr (old, e) ↦ rw (e, add_rule) (find_rule-replace_first rules new m old e)
  ]

  find_rule-remove_first :
      (rules : List (Rule M A)) (m m' : M)
      → AreDistinct rules
      → find_rule (remove_first rules m) m' ≡ update (find_rule rules) m none m'
  unfolding find_rule remove_first
  find_rule-remove_first [] m m' d = ground arith
  find_rule-remove_first (x ∷ rules) m m' d = elim (Bool-cases (q.same x.match m)) [
    | inl e ↦ elim (Bool-cases (q.same m m')) [
      | inl e' ↦ rw (e, e') (subst (λ z. find_rule rules z ≡ none) (same_eq e ∙ same_eq e') d.0)
      | inr e' ↦
          let e'' : q.same x.match m' ≡ false =
            subst (λ z. q.same z m' ≡ false) (sym (same_eq e)) e' in
          rw (e, e', e'') refl
    ]
    | inr e ↦ elim (Bool-cases (q.same x.match m')) [
      | inl e' ↦ let e'' : q.same m m' ≡ false = differ x.match m m' e e' in rw (e, e', e'') refl
      | inr e' ↦ rw (e, e') (find_rule-remove_first rules m m' d.1)
    ]
  ]

  update-none :
      (rules : List (Rule M A)) (m m' : M)
      → find_rule rules m ≡ none
      → find_rule rules m' ≡ update (find_rule rules) m none m'
  update-none rules m m' h = elim (Bool-cases (q.same m m')) [
    | inl e ↦ rw e (subst (λ z. find_rule rules z ≡ none) (same_eq e) h)
    | inr e ↦ rw e refl
  ]

  -- Deleting a match is the update to no rule.
  pub find_rule-delete_rule :
      (rules : List (Rule M A)) (m : M)
      → AreDistinct rules
      → find_rule (delete_rule rules m) ≡ update (find_rule rules) m none
  unfolding delete_rule
  find_rule-delete_rule rules m d = fun_ext λ m'. elim (Option-cases (find_rule rules m)) [
    | inl e ↦ rw (e, delete_rule) (update-none rules m m' e)
    | inr (old, e) ↦ rw (e, delete_rule) (find_rule-remove_first rules m m' d)
  ]

  append-AreDistinct :
      (rules : List (Rule M A)) (new : Rule M A)
      → AreDistinct rules
      → find_rule rules new.match ≡ none
      → AreDistinct (rules ++ new ∷ [])
  unfolding find_rule
  append-AreDistinct [] new d h = (refl, tt)
  append-AreDistinct (x ∷ rules) new d h = (
    find_rule-append rules new x.match (ground arith)
        ∙ rw (apart x.match new.match (ground arith)) d.0,
    append-AreDistinct rules new d.1 (ground arith),
  )
    where
      apart : (a b : M) → q.same a b ≡ false → q.same b a ≡ false
      apart a b n = differ a b a n (same_refl a)

  replace_first-AreDistinct :
      (rules : List (Rule M A)) (new old : Rule M A)
      → AreDistinct rules
      → find_rule rules new.match ≡ some old
      → AreDistinct (replace_first rules new)
  unfolding find_rule replace_first
  replace_first-AreDistinct [] new old d h = tt
  replace_first-AreDistinct (x ∷ rules) new old d h = elim (Bool-cases (q.same x.match new.match)) [
    | inl e ↦ rw e (subst (λ z. find_rule rules z ≡ none) (same_eq e) d.0, d.1)
    | inr e ↦ rw e (
      find_rule-replace_first rules new x.match old (ground arith)
          ∙ rw (differ x.match new.match x.match e (same_refl x.match)) d.0,
      replace_first-AreDistinct rules new old d.1 (ground arith),
    )
  ]

  remove_first-AreDistinct :
      (rules : List (Rule M A)) (m : M) → AreDistinct rules → AreDistinct (remove_first rules m)
  unfolding remove_first
  remove_first-AreDistinct [] m d = tt
  remove_first-AreDistinct (x ∷ rules) m d = elim (Bool-cases (q.same x.match m)) [
    | inl e ↦ rw e d.1
    | inr e ↦ rw e (
      find_rule-remove_first rules m x.match d.1
          ∙ rw (differ x.match m x.match e (same_refl x.match)) d.0,
      remove_first-AreDistinct rules m d.1,
    )
  ]

  pub add_rule-AreDistinct :
      (rules : List (Rule M A)) (new : Rule M A)
      → AreDistinct rules
      → AreDistinct (add_rule rules new)
  unfolding add_rule
  add_rule-AreDistinct rules new d = elim (Option-cases (find_rule rules new.match)) [
    | inl e ↦ rw (e, add_rule) (append-AreDistinct rules new d e)
    | inr (old, e) ↦ rw (e, add_rule) (replace_first-AreDistinct rules new old d e)
  ]

  pub delete_rule-AreDistinct :
      (rules : List (Rule M A)) (m : M) → AreDistinct rules → AreDistinct (delete_rule rules m)
  unfolding delete_rule
  delete_rule-AreDistinct rules m d = elim (Option-cases (find_rule rules m)) [
    | inl e ↦ rw (e, delete_rule) d
    | inr (old, e) ↦ rw (e, delete_rule) (remove_first-AreDistinct rules m d)
  ]

-- ===== src/Rules/Calls/Bulk/Lengths.antt =====
-- The lists of a call of `pipeline_table_rule_add_bulk`: rules, entries and handles.
use rids.Prelude.{
  ℕ, zero, suc, ◌+◌, ◌≤◌, ◌≡◌, refl, sym, ap, ◌∙◌, ◌⊎◌, inl, inr, true, false, List, [], ◌∷◌,
  Option, some, length, arith, Bool-cases, Option-cases, Sum-cases,
}
use rids.Registry.{is_nonzero}
use rids.Rules.{Rule, add_rule, add_rules}
use rids.Rules.Match.{Match, match_equality}
use rids.Rules.Convert.{MatchLl, match_convert}
use rids.Rules.Check.{RuleAction}
use rids.Rules.Calls.{DataPlane, action_convert}
use rids.Rules.Calls.Bulk.{write_back, convert_rules, add_each}

pub length-write_back :
    {M A : Type 0} (list : List (Rule M A)) (handles : List ℕ)
    → length (write_back list handles) ≡ length list
unfolding write_back
length-write_back [] handles = refl
length-write_back (r ∷ list) [] = refl
length-write_back (r ∷ list) (handle ∷ handles) = ap suc (length-write_back list handles)

-- What is moved and what is left.
pub length-add_rules :
    (X : Type 0) (n : ℕ) (rules list : List (Rule Match (RuleAction X)))
    → n ≤ length list
    → n + length (add_rules n rules list).1 ≡ length list
unfolding add_rules
length-add_rules X zero rules list h = omega arith
length-add_rules X (suc n) rules [] h = absurd (omega arith)
length-add_rules X (suc n) rules (new ∷ list) h =
    ground (arith, length-add_rules X n (add_rule rules new) list (omega arith))

module _ {X T E : Type 0} (dp : DataPlane X T E) where
  -- The parts of a conversion of several rules.
  pub convert_rules-cons :
      (a : Option ℕ) (rule : Rule Match (RuleAction X)) (list : List (Rule Match (RuleAction X)))
      (entries : List (MatchLl × E))
      → convert_rules dp a (rule ∷ list) ≡ inr entries
      → (key : MatchLl) × (rest : List (MatchLl × E)) × (match_convert rule.match true ≡ some key)
        × (convert_rules dp a list ≡ inr rest)
        × (entries ≡ (key, (action_convert dp a rule.action).0) ∷ rest)
  unfolding convert_rules
  convert_rules-cons a rule list entries h = elim (Option-cases (match_convert rule.match true)) [
    | inl e ↦ absurd (inl_inr (rw (e, convert_rules) at h))
    | inr (key, e) ↦ elim (Bool-cases (is_nonzero (action_convert dp a rule.action).1)) [
      | inl e' ↦ absurd (inl_inr (rw (e, e', convert_rules) at h))
      | inr e' ↦ elim (Sum-cases (convert_rules dp a list)) [
        | inl (status, q) ↦ absurd (inl_inr (rw (e, e', q, convert_rules) at h))
        | inr (rest, q) ↦ (key, rest, e, q, sym (inr_injective (rw (e, e', q, convert_rules) at h)))
      ]
    ]
  ]
    where
      inl_inr : {A B : Type 0} {a : A} {b : B} → inl a ≡ inr b → ⊥
      inl_inr q = cc

      inr_injective : {A B : Type 0} {b b' : B} → Path (A ⊎ B) (inr b) (inr b') → b ≡ b'
      inr_injective q = cc

  pub length-convert_rules :
      (a : Option ℕ) (list : List (Rule Match (RuleAction X))) (entries : List (MatchLl × E))
      → convert_rules dp a list ≡ inr entries
      → length entries ≡ length list
  unfolding convert_rules
  length-convert_rules a [] [] h = refl
  length-convert_rules a [] (x ∷ entries) h = cc
  length-convert_rules a (rule ∷ list) entries h =
      let (key, rest, e, q, entries-eq) = convert_rules-cons a rule list entries h in
      ap length entries-eq ∙ ap suc (length-convert_rules a list rest q)

  -- Single additions stop behind the last entry or at a failure.
  pub length-add_each :
      (t : T) (table_id : ℕ) (entries : List (MatchLl × E))
      → (length (add_each dp t table_id entries).1 ≤ length entries)
        × (is_nonzero (add_each dp t table_id entries).2 ≡ false
            → length (add_each dp t table_id entries).1 ≡ length entries)
  unfolding add_each
  length-add_each t table_id [] = (omega arith, λ h. refl)
  length-add_each t table_id ((key, entry) ∷ rest) =
      elim (Bool-cases (is_nonzero (dp.entry_add t table_id key entry).1)) [
        | inl e ↦ rw (e, add_each) (omega arith, λ h. absurd (ground (arith, e)))
        | inr e ↦
            let (small, all) =
              length-add_each (dp.entry_add t table_id key entry).0 table_id rest in
            rw (e, add_each) (omega arith, λ h. ap suc (all h))
      ]

-- ===== src/Rules/History.antt =====
-- Any sequence of changes of the rules of a table, as a sequence of changes of a function.
use rids.Prelude.{
  ℕ, zero, suc, ◌≡◌, refl, ap, ◌∙◌, List, [], ◌∷◌, Option, none, some, take, drop, Equality,
}
use rids.Rules.{
  Rule, RuleTable, find_rule, add_rule, delete_rule, add_rules, table_rule_find, table_rule_add,
  table_rule_add_bulk, table_rule_delete,
}
use rids.Rules.Store.{
  update, AreDistinct, find_rule-add_rule, find_rule-delete_rule, add_rule-AreDistinct,
  delete_rule-AreDistinct,
}

-- A call of the main thread that changes the rules of a table.
pub data Change (M A : Type 0) : Type 0 where
  add : Rule M A → Change M A
  add_bulk : List (Rule M A) → ℕ → Change M A
  delete : M → Change M A

module _ {M A : Type 0} ⦃q : Equality M⦄ where
  unfoldable pub change : Change M A → RuleTable M A → RuleTable M A
  change (add new) table = table_rule_add table new
  change (add_bulk list n) table = (table_rule_add_bulk table list n).0
  change (delete m) table = table_rule_delete table m

  unfoldable pub run : List (Change M A) → RuleTable M A → RuleTable M A
  run [] table = table
  run (c ∷ rest) table = run rest (change c table)

  -- The same changes of a function from matches to rules.
  unfoldable pub update_all : List (Rule M A) → (M → Option (Rule M A)) → M → Option (Rule M A)
  update_all [] f = f
  update_all (new ∷ list) f = update_all list (update f new.match (some new))

  unfoldable pub replay : List (Change M A) → (M → Option (Rule M A)) → M → Option (Rule M A)
  replay [] f = f
  replay (add new ∷ rest) f = replay rest (update f new.match (some new))
  replay (add_bulk list n ∷ rest) f = replay rest (update_all (take n list) f)
  replay (delete m ∷ rest) f = replay rest (update f m none)

  add_rules_refines :
      (n : ℕ) (rules list : List (Rule M A))
      → AreDistinct rules
      → AreDistinct (add_rules n rules list).0
        × (find_rule (add_rules n rules list).0 ≡ update_all (take n list) (find_rule rules))
        × ((add_rules n rules list).1 ≡ drop n list)
  unfolding add_rules update_all
  add_rules_refines zero rules list d = (d, refl, refl)
  add_rules_refines (suc n) rules [] d = (d, refl, refl)
  add_rules_refines (suc n) rules (new ∷ list) d =
      let (d', e, left) =
        add_rules_refines n (add_rule rules new) list (add_rule-AreDistinct rules new d) in
      (d', e ∙ ap (update_all (take n list)) (find_rule-add_rule rules new), left)

  -- After any sequence of additions, bulk additions and deletions, no match has two rules, and the
  -- rule found for a match is the one that the same changes of a function give: the last one added
  -- since the last deletion. A bulk addition takes the first rules of its list.
  pub run_refines :
      (changes : List (Change M A)) (table : RuleTable M A)
      → AreDistinct table.rules
      → AreDistinct (run changes table).rules
        × (table_rule_find (run changes table) ≡ replay changes (table_rule_find table))
  unfolding run change replay table_rule_find table_rule_add table_rule_add_bulk table_rule_delete
  run_refines [] table d = (d, refl)
  run_refines (add new ∷ rest) table d =
      let (d', e) =
        run_refines rest (record table { rules = add_rule table.rules new })
          (add_rule-AreDistinct table.rules new d) in
      (d', e ∙ ap (replay rest) (find_rule-add_rule table.rules new))
  run_refines (add_bulk list n ∷ rest) table d =
      let (distinct, is, left) = add_rules_refines n table.rules list d in
      let (d', e) =
        run_refines rest (record table { rules = (add_rules n table.rules list).0 }) distinct in
      (d', e ∙ ap (replay rest) is)
  run_refines (delete m ∷ rest) table d =
      let (d', e) =
        run_refines rest (record table { rules = delete_rule table.rules m })
          (delete_rule-AreDistinct table.rules m d) in
      (d', e ∙ ap (replay rest) (find_rule-delete_rule table.rules m d))

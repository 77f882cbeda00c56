-- ===== src/Rules.antt =====
-- processing/dpdk_pipeline/pipeline.c: the rules of a table, in the order of their addition. A match
-- is compared by `memcmp`. `entry` is the field `data`, the handle of the rule in the data plane.
pub mod Match
pub mod Convert
pub mod Check
pub mod Calls
pub mod Store
pub mod History
use rids.Prelude.{
  ℕ, zero, suc, Bool, true, false, List, [], ◌∷◌, ◌++◌, Option, none, some, if◌then◌else◌, Equality,
}

pub record Rule (M A : Type 0) : Type 0 where
  pub match : M
  pub action : A
  pub entry : ℕ

-- table->rules and table->rule_default
pub record RuleTable (M A : Type 0) : Type 0 where
  pub rules : List (Rule M A)
  pub rule_default : Option (Rule M A)

module _ {M A : Type 0} ⦃q : Equality M⦄ where
  -- table_rule_find
  unfoldable pub find_rule : List (Rule M A) → M → Option (Rule M A)
  find_rule [] m = none
  find_rule (r ∷ rules) m = if q.same r.match m then some r else find_rule rules m

  -- TAILQ_INSERT_AFTER(existing, new), TAILQ_REMOVE(existing) for the first rule of the match.
  unfoldable pub replace_first : List (Rule M A) → Rule M A → List (Rule M A)
  replace_first [] new = []
  replace_first (r ∷ rules) new =
      if q.same r.match new.match then new ∷ rules else r ∷ replace_first rules new

  -- TAILQ_REMOVE of the first rule of the match.
  unfoldable pub remove_first : List (Rule M A) → M → List (Rule M A)
  remove_first [] m = []
  remove_first (r ∷ rules) m = if q.same r.match m then rules else r ∷ remove_first rules m

  unfoldable pub add_rule : List (Rule M A) → Rule M A → List (Rule M A)
  unfolding find_rule replace_first
  add_rule rules new = elim (find_rule rules new.match) [
    | none ↦ rules ++ new ∷ []
    | some existing ↦ replace_first rules new
  ]

  unfoldable pub delete_rule : List (Rule M A) → M → List (Rule M A)
  unfolding find_rule remove_first
  delete_rule rules m = elim (find_rule rules m) [ none ↦ rules | some rule ↦ remove_first rules m ]

  -- The loop of table_rule_add_bulk: the rules of the table, and those left in the list.
  unfoldable pub add_rules :
      ℕ → List (Rule M A) → List (Rule M A) → List (Rule M A) × List (Rule M A)
  unfolding add_rule
  add_rules zero rules list = (rules, list)
  add_rules (suc n) rules [] = (rules, [])
  add_rules (suc n) rules (new ∷ list) = add_rules n (add_rule rules new) list

  unfoldable pub table_rule_find : RuleTable M A → M → Option (Rule M A)
  unfolding find_rule
  table_rule_find table m = find_rule table.rules m

  unfoldable pub table_rule_add : RuleTable M A → Rule M A → RuleTable M A
  unfolding add_rule
  table_rule_add table new = record table { rules = add_rule table.rules new }

  unfoldable pub table_rule_add_bulk :
      RuleTable M A → List (Rule M A) → ℕ → RuleTable M A × List (Rule M A)
  unfolding add_rules
  table_rule_add_bulk table list n_rules =
      let (rules, rest) = add_rules n_rules table.rules list in
      (record table { rules = rules }, rest)

  unfoldable pub table_rule_delete : RuleTable M A → M → RuleTable M A
  unfolding delete_rule
  table_rule_delete table m = record table { rules = delete_rule table.rules m }

unfoldable pub table_rule_default_add : {M A : Type 0} → RuleTable M A → Rule M A → RuleTable M A
table_rule_default_add table rule = record table { rule_default = some rule }

unfoldable pub table_rule_default_delete : {M A : Type 0} → RuleTable M A → RuleTable M A
table_rule_default_delete table = record table { rule_default = none }

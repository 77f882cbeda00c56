-- ===== src/Rules/Calls/Agreement.antt =====
-- The rules that the main thread lists and the entries of the data plane's tables.
use rids.Prelude.{
  ℕ, ◌≡◌, ◌≢◌, refl, sym, ap, subst, ◌∙◌, ◌⊎◌, inl, inr, Bool, true, false, List, Option, none,
  some, if◌then◌else◌, arith, ◌==◌, same_eq, same_refl, Bool-cases,
}
use mathlib.Core.Option.{some-injective}
use rids.Registry.{is_nonzero}
use rids.Rules.{
  Rule, RuleTable, find_rule, add_rule, delete_rule, table_rule_add, table_rule_delete,
}
use rids.Rules.Store.{
  update, AreDistinct, find_rule-add_rule, find_rule-delete_rule, add_rule-AreDistinct,
  delete_rule-AreDistinct,
}
use rids.Rules.Match.{Match, match_equality}
use rids.Rules.Convert.{MatchLl, match_convert}
use rids.Rules.Convert.Keys.{IsRaw}
use rids.Rules.Check.{RuleAction}
use rids.Rules.Calls.{DataPlane, Control, with_rules, rules_of, store_rule, drop_rule}
use rids.Rules.Calls.Entries.{entry_of, IsTableApi, AddsEntry}

other : (i j : ℕ) → (i == j) ≡ false → i ≢ j
other i j e q = absurd (ground arith)

module _ {H X T E K : Type 0} (dp : DataPlane X T E) (norm : ℕ → MatchLl → K)
    (contents : T → ℕ → K → Option ℕ) (api : IsTableApi dp norm contents) (Good : Match → Type 0)
    (plain : (m : Match) → Good m → ¬ IsRaw m)
    (apart : (i : ℕ) (m m' : Match) (k k' : MatchLl)
      → Good m
      → Good m'
      → match_convert m false ≡ some k
      → match_convert m' false ≡ some k'
      → norm i k ≡ norm i k'
      → m ≡ m') where
  abbrev pub rules_at : Control H X T → ℕ → List (Rule Match (RuleAction X))
  rules_at c i = (rules_of dp c i).rules

  -- No match has two rules in a list, and the entry under the key of a match is the one that the rule
  -- of that match has, or none.
  pub record Agrees (c : Control H X T) : Type 0 where
    pub distinct : (i : ℕ) → AreDistinct (rules_at c i)
    pub entries :
        (i : ℕ) (m : Match) (k : MatchLl)
        → Good m
        → match_convert m false ≡ some k
        → contents c.lower i (norm i k) ≡ entry_of (find_rule (rules_at c i) m)

  -- A table's lower half is as it was.
  pub same_contents :
      (c : Control H X T) (t : T)
      → Agrees c
      → contents t ≡ contents c.lower
      → Agrees (record c { lower = t })
  same_contents c t w e = record {
    distinct = w.distinct;
    entries = λ i m k g h. ap (λ f. f i (norm i k)) e ∙ w.entries i m k g h;
  }

  pub with_self :
      (c : Control H X T) (id : ℕ) (t : T) (rules : RuleTable Match (RuleAction X)) (i : ℕ)
      → (i == id) ≡ true
      → rules_at (with_rules dp c id t rules) i ≡ rules.rules
  with_self c id t rules i e =
      ap
        (λ (b : Bool).
          (if b
            then record (c.tables.table i) { rule_table = rules }
            else c.tables.table i).rule_table.rules)
        e

  pub with_other :
      (c : Control H X T) (id : ℕ) (t : T) (rules : RuleTable Match (RuleAction X)) (i : ℕ)
      → (i == id) ≡ false
      → rules_at (with_rules dp c id t rules) i ≡ rules_at c i
  with_other c id t rules i e =
      ap
        (λ (b : Bool).
          (if b
            then record (c.tables.table i) { rule_table = rules }
            else c.tables.table i).rule_table.rules)
        e

  -- One match has a new entry, or none, in both halves.
  changed_entry :
      (c : Control H X T) (id : ℕ) (t : T) (rules : RuleTable Match (RuleAction X)) (m : Match)
      (k : MatchLl) (new : Option (Rule Match (RuleAction X)))
      → Agrees c
      → Good m
      → match_convert m false ≡ some k
      → AreDistinct rules.rules
      → find_rule rules.rules ≡ update (find_rule (rules_at c id)) m new
      → contents t id (norm id k) ≡ entry_of new
      → ((i : ℕ) (x : K) → (i ≢ id) ⊎ (x ≢ norm id k) → contents t i x ≡ contents c.lower i x)
      → Agrees (with_rules dp c id t rules)
  changed_entry c id t rules m k new w g h d is own others = record {
    distinct = λ i. elim (Bool-cases (i == id)) [
      | inl e ↦ subst AreDistinct (sym (with_self c id t rules i e)) d
      | inr e ↦ subst AreDistinct (sym (with_other c id t rules i e)) (w.distinct i)
    ];
    entries = λ i m' k' g' h'. elim (Bool-cases (i == id)) [
      | inl e ↦
          subst (λ z. contents t z (norm z k') ≡ entry_of (find_rule rules.rules m'))
            (sym (equal i id e)) (at_table m' k' g' h')
          ∙ sym (ap (λ z. entry_of (find_rule z m')) (with_self c id t rules i e))
      | inr e ↦
          others i (norm i k') (inl (other i id e))
          ∙ w.entries i m' k' g' h'
          ∙ sym (ap (λ z. entry_of (find_rule z m')) (with_other c id t rules i e))
    ];
  }
    where
      equal : (i j : ℕ) → (i == j) ≡ true → i ≡ j
      equal i j e = ground arith

      at_table :
          (m' : Match) (k' : MatchLl)
          → Good m'
          → match_convert m' false ≡ some k'
          → contents t id (norm id k') ≡ entry_of (find_rule rules.rules m')
      at_table m' k' g' h' = elim (Bool-cases (match_equality.same m m')) [
        | inl e ↦
            let m-eq : m ≡ m' = same_eq e in
            let k-eq : k ≡ k' =
              some-injective _ _ (sym h ∙ ap (λ z. match_convert z false) m-eq ∙ h') in
            subst (λ z. contents t id (norm id z) ≡ entry_of (find_rule rules.rules m')) k-eq
              (own ∙ sym (ap entry_of (ap (λ f. f m') is ∙ rw e refl)))
        | inr e ↦
            let other_key : norm id k' ≢ norm id k =
              λ q. differ m m' e (apart id m m' k k' g g' h h' (sym q)) in
            others id (norm id k') (inr other_key)
            ∙ w.entries id m' k' g' h'
            ∙ sym (ap entry_of (ap (λ f. f m') is ∙ rw e refl))
      ]
        where
          differ : (a b : Match) → match_equality.same a b ≡ false → a ≢ b
          differ a b n q =
              absurd (ground (arith, subst (λ z. match_equality.same a z ≡ true) q (same_refl a)))

  pub store_rule-Agrees :
      (c : Control H X T) (id : ℕ) (m : Match) (action : RuleAction X) (k : MatchLl)
      (r : T × Option ℕ)
      → Agrees c
      → Good m
      → match_convert m false ≡ some k
      → AddsEntry dp norm contents api Good plain c.lower id k r
      → Agrees (store_rule dp c id m action r).0
  unfolding table_rule_add
  store_rule-Agrees c id m action k (t, none) w g h adds = same_contents c t w adds
  store_rule-Agrees c id m action k (t, some handle) w g h (own, others) =
      let new : Rule Match (RuleAction X) = record { match = m; action = action; entry = handle } in
      changed_entry c id t (record (rules_of dp c id) { rules = add_rule (rules_at c id) new }) m k
        (some new) w g h (add_rule-AreDistinct (rules_at c id) new (w.distinct id))
        (find_rule-add_rule (rules_at c id) new) own others

  -- What a deletion from the lower half comes to.
  pub drop_rule-Agrees :
      (c : Control H X T) (id : ℕ) (m : Match) (k : MatchLl)
      → Agrees c
      → Good m
      → match_convert m false ≡ some k
      → Agrees (drop_rule dp c id m (dp.entry_delete c.lower id k)).0
  unfolding table_rule_delete
  drop_rule-Agrees c id m k w g h =
      elim (Bool-cases (is_nonzero (dp.entry_delete c.lower id k).1)) [
        | inl f ↦ rw f (same_contents c _ w (api.delete_fails c.lower id k f))
        | inr f ↦ rw f (
            changed_entry c id _
              (record (rules_of dp c id) { rules = delete_rule (rules_at c id) m }) m k none w g h
              (delete_rule-AreDistinct (rules_at c id) m (w.distinct id))
              (find_rule-delete_rule (rules_at c id) m (w.distinct id))
              (api.delete_removes c.lower id k f) (api.delete_keeps c.lower id k))
      ]

-- ===== src/Rules/Calls/Bulk/Chains.antt =====
-- Entries that are stored one after the other, and the rules that are moved with their handles.
use rids.Prelude.{
  ℕ, suc, ◌≡◌, refl, sym, ap, subst, ◌∙◌, inl, inr, true, false, List, [], ◌∷◌, Option, some, ◌==◌,
  length, arith, All, Bool-cases,
}
use rids.Registry.{RteStatus, is_nonzero}
use rids.Rules.{Rule, find_rule, add_rules, table_rule_add}
use rids.Rules.Store.{AreDistinct}
use rids.Rules.Match.{Match, match_equality}
use rids.Rules.Convert.{MatchLl, match_convert}
use rids.Rules.Convert.Keys.{IsRaw, delete_key, match_convert-delete_key}
use rids.Rules.Check.{RuleAction}
use rids.Rules.Calls.{DataPlane, Control, with_rules, rules_of, store_rule}
use rids.Rules.Calls.Entries.{entry_of, IsTableApi, Chain}
use rids.Rules.Calls.Agreement.{Agrees, rules_at, with_self, with_other, store_rule-Agrees}
use rids.Rules.Calls.Bulk.{write_back, convert_rules, add_each}
use rids.Rules.Calls.Bulk.Lengths.{convert_rules-cons}

module _ {X T E K : Type 0} (dp : DataPlane X T E) (norm : ℕ → MatchLl → K)
    (contents : T → ℕ → K → Option ℕ) (api : IsTableApi dp norm contents) where
  -- Single additions store the entries in order, up to the first that fails.
  pub add_each-Chain :
      (id : ℕ) (entries : List (MatchLl × E)) (t : T)
      → Chain norm contents id t entries (add_each dp t id entries).1 (add_each dp t id entries).0
  unfolding add_each
  add_each-Chain id [] t = refl
  add_each-Chain id ((key, entry) ∷ entries) t =
      elim (Bool-cases (is_nonzero (dp.entry_add t id key entry).1)) [
        | inl f ↦ rw (f, add_each) (api.add_fails t id key entry f)
        | inr f ↦
            let t1 = (dp.entry_add t id key entry).0 in
            rw (f, add_each)
              (
                t1,
                (api.add_stores t id key entry f, api.add_keeps t id key entry),
                add_each-Chain id entries t1,
              )
      ]

module _ {H X T E K : Type 0} (dp : DataPlane X T E) (norm : ℕ → MatchLl → K)
    (contents : T → ℕ → K → Option ℕ) (api : IsTableApi dp norm contents) (Good : Match → Type 0)
    (plain : (m : Match) → Good m → ¬ IsRaw m)
    (apart : (i : ℕ) (m m' : Match) (k k' : MatchLl)
      → Good m
      → Good m'
      → match_convert m false ≡ some k
      → match_convert m' false ≡ some k'
      → norm i k ≡ norm i k'
      → m ≡ m') where
  abbrev Kept : Control H X T → Type 0
  Kept = Agrees dp norm contents api Good plain apart

  abbrev rules_in : Control H X T → ℕ → List (Rule Match (RuleAction X))
  rules_in = rules_at dp norm contents api Good plain apart

  -- The agreement is about the lists and the entries only.
  pub same_rules :
      (c c' : Control H X T)
      → ((i : ℕ) → rules_in c i ≡ rules_in c' i)
      → contents c'.lower ≡ contents c.lower
      → Kept c
      → Kept c'
  same_rules c c' e e' w = record {
    distinct = λ i. subst AreDistinct (e i) (w.distinct i);
    entries = λ i m k g h.
        ap (λ f. f i (norm i k)) e'
        ∙ w.entries i m k g h
        ∙ ap (λ z. entry_of (find_rule z m)) (e i);
  }

  -- The first `n` rules of a list are moved to a table's list.
  abbrev pub moved : Control H X T → ℕ → T → ℕ → List (Rule Match (RuleAction X)) → Control H X T
  moved c id t n list =
      with_rules dp c id t
        (record (rules_of dp c id) { rules = (add_rules n (rules_in c id) list).0 })

  moved_self :
      (c : Control H X T) (id : ℕ) (t : T) (n : ℕ) (list : List (Rule Match (RuleAction X))) (i : ℕ)
      → (i == id) ≡ true
      → rules_in (moved c id t n list) i ≡ (add_rules n (rules_in c id) list).0
  moved_self c id t n list i e = with_self dp norm contents api Good plain apart c id t _ i e

  moved_other :
      (c : Control H X T) (id : ℕ) (t : T) (n : ℕ) (list : List (Rule Match (RuleAction X))) (i : ℕ)
      → (i == id) ≡ false
      → rules_in (moved c id t n list) i ≡ rules_in c i
  moved_other c id t n list i e = with_other dp norm contents api Good plain apart c id t _ i e

  pub moved_zero :
      (c : Control H X T) (id : ℕ) (t : T) (list : List (Rule Match (RuleAction X))) (i : ℕ)
      → rules_in (moved c id t 0 list) i ≡ rules_in c i
  unfolding add_rules
  moved_zero c id t list i = elim (Bool-cases (i == id)) [
    | inl e ↦
        let i-eq : id ≡ i = ground arith in moved_self c id t 0 list i e ∙ ap (rules_in c) i-eq
    | inr e ↦ moved_other c id t 0 list i e
  ]

  -- What holds after single additions of the entries of a list.
  abbrev pub After :
      Control H X T → ℕ → List (Rule Match (RuleAction X)) → T × List ℕ × RteStatus → Type 0
  After c id list (t, handles, status) =
      Kept (moved c id t (length handles) (write_back list handles))

  pub Chain-After :
      (id : ℕ) (a : Option ℕ) (list : List (Rule Match (RuleAction X)))
      (entries : List (MatchLl × E)) (handles : List ℕ) (c : Control H X T) (t : T)
      (status : RteStatus)
      → Kept c
      → All (λ r. Good r.match) list
      → convert_rules dp a list ≡ inr entries
      → Chain norm contents id c.lower entries handles t
      → After c id list (t, handles, status)
  unfolding add_rules write_back convert_rules table_rule_add
  Chain-After id a list entries [] c t status w g h chain =
      same_rules c _ (λ i. sym (moved_zero c id t (write_back list []) i)) chain w
  Chain-After id a [] [] (handle ∷ handles) c t status w g h chain = absurd chain
  Chain-After id a [] (x ∷ entries) (handle ∷ handles) c t status w g h chain = cc
  Chain-After id a (rule ∷ list) [] (handle ∷ handles) c t status w g h chain = absurd chain
  Chain-After id a (rule ∷ list) ((k, entry) ∷ entries) (handle ∷ handles) c t status w g h
        (t1, stores, chain) =
      let (key, rest, e, q, entries-eq) = convert_rules-cons dp a rule list _ h in
      let key-eq : key ≡ k = cc in
      let rest-eq : rest ≡ entries = cc in
      let converted : match_convert rule.match false ≡ some (delete_key k) =
        match_convert-delete_key rule.match k (plain rule.match g.0) (e ∙ ap some key-eq) in
      let c1 : Control H X T = (store_rule dp c id rule.match rule.action (t1, some handle)).0 in
      let w1 : Kept c1 =
        store_rule-Agrees dp norm contents api Good plain apart c id rule.match rule.action
          (delete_key k) (t1, some handle) w g.0 converted stores in
      same_rules (moved c1 id t (length handles) (write_back list handles)) _
        (next c id rule handle t1 t (length handles) (write_back list handles)) refl
        (Chain-After id a list entries handles c1 t status w1 g.1 (q ∙ ap inr rest-eq) chain)
    where
      -- One rule and then the others, or all at once.
      next :
          (c : Control H X T) (id : ℕ) (rule : Rule Match (RuleAction X)) (handle : ℕ) (t t' : T)
          (n : ℕ) (list : List (Rule Match (RuleAction X))) (i : ℕ)
          → rules_in
              (moved (store_rule dp c id rule.match rule.action (t, some handle)).0 id t' n list)
              i
            ≡ rules_in (moved c id t' (suc n) (record rule { entry = handle } ∷ list)) i
      next c id rule handle t t' n list i = elim (Bool-cases (i == id)) [
        | inl e ↦
            let self : (id == id) ≡ true = ground arith in
            moved_self (store_rule dp c id rule.match rule.action (t, some handle)).0 id t' n list i
              e
            ∙ ap (λ z. (add_rules n z list).0)
                (with_self dp norm contents api Good plain apart c id t _ id self)
            ∙ sym (moved_self c id t' (suc n) (record rule { entry = handle } ∷ list) i e)
        | inr e ↦
            moved_other (store_rule dp c id rule.match rule.action (t, some handle)).0 id t' n list
              i e
            ∙ with_other dp norm contents api Good plain apart c id t _ i e
            ∙ sym (moved_other c id t' (suc n) (record rule { entry = handle } ∷ list) i e)
      ]

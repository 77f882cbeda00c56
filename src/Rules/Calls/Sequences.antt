-- ===== src/Rules/Calls/Sequences.antt =====
-- Single calls, and sequences of calls, that add and delete rules.
use rids.Prelude.{
  ℕ, ◌≡◌, sym, ap, subst, Bool, true, false, not, ◌&&◌, ◌||◌, List, [], ◌∷◌, Option, none, some,
  arith, Bool-cases, Option-cases, inl, inr,
}
use mathlib.Core.Option.{some-injective}
use rids.Registry.{RteStatus}
use rids.Rules.Match.{Match, match_equality}
use rids.Rules.Convert.{MatchLl, match_convert}
use rids.Rules.Convert.Keys.{IsRaw}
use rids.Rules.Check.{RuleAction, match_check, action_check}
use rids.Rules.Check.Accepted.{match_check-converts}
use rids.Rules.Calls.{
  DataPlane, Control, Env, add_stopped, delete_stopped, pipeline_msg_handle_table_rule_delete,
  drop_rule, add_checked, pipeline_table_rule_add, pipeline_table_rule_delete,
}
use rids.Rules.Calls.Entries.{
  IsTableApi, AddsEntry, add_stopped-AddsEntry, handle_add-eq-add_stopped,
}
use rids.Rules.Calls.Agreement.{Agrees, store_rule-Agrees, drop_rule-Agrees}

-- The calls, each with the state of the platform at that time.
pub data RuleCall (X : Type 0) : Type 0 where
  add : Env → ℕ → Match → Option (RuleAction X) → RuleCall X
  delete : Env → ℕ → Match → RuleCall X

abbrev pub match_of : {X : Type 0} → RuleCall X → Match
match_of (add env id m action) = m
match_of (delete env id m) = m

module _ {H X T E : Type 0} (dp : DataPlane X T E) where
  abbrev state_of : Option (Control H X T × RteStatus) → Option (Control H X T)
  state_of none = none
  state_of (some (c, status)) = some c

  -- `none`: `action_check` has read through a null pointer.
  unfoldable pub call : RuleCall X → Control H X T → Option (Control H X T)
  call (add env id m action) c = state_of (pipeline_table_rule_add dp env id (some m) action c)
  call (delete env id m) c = some (pipeline_table_rule_delete dp env id (some m) c).0

  unfoldable pub calls : List (RuleCall X) → Control H X T → Option (Control H X T)
  unfolding call
  calls [] c = some c
  calls (x ∷ rest) c = elim (call x c) [ none ↦ none | some c' ↦ calls rest c' ]

module _ {H X T E K : Type 0} (dp : DataPlane X T E) (norm : ℕ → MatchLl → K)
    (contents : T → ℕ → K → Option ℕ) (api : IsTableApi dp norm contents) (Good : Match → Type 0)
    (plain : (m : Match) → Good m → ¬ IsRaw m)
    (apart : (i : ℕ) (m m' : Match) (k k' : MatchLl)
      → Good m
      → Good m'
      → match_convert m false ≡ some k
      → match_convert m' false ≡ some k'
      → norm i k ≡ norm i k'
      → m ≡ m') where
  abbrev Kept : Control H X T → Type 0
  Kept = Agrees dp norm contents api Good plain apart

  add_checked-Agrees :
      (env : Env) (id : ℕ) (m : Match) (action : RuleAction X) (c : Control H X T)
      → match_check m c.tables id ≡ true
      → Kept c
      → Good m
      → Kept (add_checked dp env id m action c).0
  unfolding add_checked
  add_checked-Agrees env id m action c ok w g =
      let (k, h) = match_check-converts m c.tables id false ok in
      elim (Bool-cases (not env.rule_alloc || not env.work_alloc)) [
        | inl e ↦ rw e w
        | inr e ↦
            let adds : (a : Option ℕ)
                → AddsEntry dp norm contents api Good plain c.lower id k
                    (add_stopped dp c.lower a id m action) =
              λ a.
                add_stopped-AddsEntry dp norm contents api Good plain c.lower a id m action k g h in
            elim (Bool-cases env.running) [
              | inl running ↦
                  rw (e, running)
                    (store_rule-Agrees dp norm contents api Good plain apart c id m action k _ w g h
                      (subst (AddsEntry dp norm contents api Good plain c.lower id k)
                        (sym (
                          handle_add-eq-add_stopped dp norm contents api Good plain c.lower
                            (env.table_data id) id m action))
                        (adds (env.table_data id))))
              | inr stopped ↦
                  rw (e, stopped)
                    (store_rule-Agrees dp norm contents api Good plain apart c id m action k _ w g h
                      (adds (c.tables.table id).a))
            ]
      ]

  -- A call of `pipeline_table_rule_add`, whether the pipeline runs or not and whatever fails, keeps the
  -- list of rules and the entries of the data plane in agreement.
  pub pipeline_table_rule_add-Agrees :
      (env : Env) (id : ℕ) (m : Match) (action : Option (RuleAction X)) (c c' : Control H X T)
      (status : RteStatus)
      → Kept c
      → Good m
      → pipeline_table_rule_add dp env id (some m) action c ≡ some (c', status)
      → Kept c'
  unfolding pipeline_table_rule_add
  pipeline_table_rule_add-Agrees env id m none c c' status w g h =
      subst Kept (ap (λ r. r.0) (some-injective _ _ h)) w
  pipeline_table_rule_add-Agrees env id m (some action) c c' status w g h =
      elim (Bool-cases (match_check m c.tables id)) [
        | inr e ↦
            subst Kept (ap (λ r. r.0) (some-injective _ _ (rw (e, pipeline_table_rule_add) at h))) w
        | inl e ↦ elim (Option-cases (action_check action c.tables id)) [
          | inl e' ↦ absurd (none_some (rw (e, e', pipeline_table_rule_add) at h))
          | inr (ok, e') ↦ checked ok e e'
        ]
      ]
    where
      none_some : {A : Type 0} {a : A} → none ≡ some a → ⊥
      none_some q = cc

      checked :
          (ok : Bool)
          → match_check m c.tables id ≡ true
          → action_check action c.tables id ≡ some ok
          → Kept c'
      checked true e e' =
          subst Kept (ap (λ r. r.0) (some-injective _ _ (rw (e, e', pipeline_table_rule_add) at h)))
            (add_checked-Agrees env id m action c e w g)
      checked false e e' =
          subst Kept (ap (λ r. r.0) (some-injective _ _ (rw (e, e', pipeline_table_rule_add) at h)))
            w

  delete_stopped-drop_rule :
      (id : ℕ) (m : Match) (c : Control H X T) (k : MatchLl)
      → Kept c
      → Good m
      → match_convert m false ≡ some k
      → Kept (drop_rule dp c id m (delete_stopped dp c.lower id m)).0
  unfolding delete_stopped
  delete_stopped-drop_rule id m c k w g h =
      rw (h, delete_stopped) (drop_rule-Agrees dp norm contents api Good plain apart c id m k w g h)

  -- A call of `pipeline_table_rule_delete`, whether the pipeline runs or not and whatever fails, keeps
  -- the list of rules and the entries of the data plane in agreement.
  pub pipeline_table_rule_delete-Agrees :
      (env : Env) (id : ℕ) (m : Match) (c : Control H X T)
      → Kept c
      → Good m
      → Kept (pipeline_table_rule_delete dp env id (some m) c).0
  unfolding pipeline_table_rule_delete pipeline_msg_handle_table_rule_delete delete_stopped
  pipeline_table_rule_delete-Agrees env id m c w g =
      elim (Bool-cases (not (match_check m c.tables id) || (env.running && not env.work_alloc))) [
        | inl e ↦ rw e w
        | inr e ↦
            let (k, h) = match_check-converts m c.tables id false (ground arith) in
            let deleted : Kept (drop_rule dp c id m (delete_stopped dp c.lower id m)).0 =
              delete_stopped-drop_rule id m c k w g h in
            elim (Bool-cases env.running) [
              | inl running ↦ rw (e, running) deleted
              | inr stopped ↦ rw (e, stopped) deleted
            ]
      ]

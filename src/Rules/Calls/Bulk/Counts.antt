-- ===== src/Rules/Calls/Bulk/Counts.antt =====
-- What `pipeline_table_rule_add_bulk` reports.
use rids.Prelude.{
  ℕ, ◌+◌, ◌≤◌, ◌≡◌, refl, sym, ap, subst, ◌∙◌, ◌⊎◌, inl, inr, Bool, true, false, not, ◌&&◌, List,
  [], ◌∷◌, Option, none, some, if◌then◌else◌, ltb, ◌==◌, length, arith, Bool-cases, Option-cases,
  Sum-cases,
}
use mathlib.Core.Option.{some-injective}
use rids.Registry.{RteStatus, negative, is_nonzero}
use rids.Rules.{Rule, add_rules, table_rule_add_bulk}
use rids.Rules.Match.{Match, match_equality}
use rids.Rules.Convert.{MatchLl}
use rids.Rules.Check.{RuleAction}
use rids.Rules.Calls.{DataPlane, Control, Env, rules_of}
use rids.Rules.Calls.Bulk.Lengths.{
  length-write_back, length-add_rules, length-convert_rules, length-add_each,
}
use rids.Rules.Calls.Bulk.{
  write_back, is_acl, convert_rules, add_each, LlResult, add_in_bulk, add_singly,
  table_rule_add_bulk_ll, response, pipeline_msg_handle_table_rule_add_bulk, check_rules,
  store_rules, add_bulk_checked, pipeline_table_rule_add_bulk,
}

module _ {X T E : Type 0} (dp : DataPlane X T E) where
  -- The single additions of the first entries have succeeded, with these handles; and these are all
  -- entries, or the addition of the next one has failed.
  abbrev pub AddedSingly : ℕ → T → List (MatchLl × E) → List ℕ → T → Type 0
  AddedSingly i t [] [] t' = t' ≡ t
  AddedSingly i t [] (handle ∷ handles) t' = ⊥
  AddedSingly i t ((key, entry) ∷ entries) [] t' =
      (is_nonzero (dp.entry_add t i key entry).1 ≡ true) × (t' ≡ (dp.entry_add t i key entry).0)
  AddedSingly i t ((key, entry) ∷ entries) (handle ∷ handles) t' =
      (is_nonzero (dp.entry_add t i key entry).1 ≡ false)
      × (handle ≡ (dp.entry_add t i key entry).2)
      × AddedSingly i (dp.entry_add t i key entry).0 entries handles t'

  -- `n` entries have been added: all of them by one addition, or the first ones by single additions.
  abbrev pub Added : Bool → ℕ → T → List (MatchLl × E) → List ℕ → ℕ → T → Type 0
  Added true i t entries handles n t' =
      (n ≡ length entries)
      × (is_nonzero (dp.entry_add_bulk t i entries).1 ≡ false)
      × (handles ≡ (dp.entry_add_bulk t i entries).2)
      × (t' ≡ (dp.entry_add_bulk t i entries).0)
  Added false i t entries handles n t' = (n ≡ length handles) × AddedSingly i t entries handles t'

  add_each-AddedSingly :
      (i : ℕ) (t : T) (entries : List (MatchLl × E))
      → AddedSingly i t entries (add_each dp t i entries).1 (add_each dp t i entries).0
  unfolding add_each
  add_each-AddedSingly i t [] = refl
  add_each-AddedSingly i t ((key, entry) ∷ entries) =
      elim (Bool-cases (is_nonzero (dp.entry_add t i key entry).1)) [
        | inl f ↦ rw (f, add_each) (f, refl)
        | inr f ↦
            rw (f, add_each)
              (f, refl, add_each-AddedSingly i (dp.entry_add t i key entry).0 entries)
      ]

  -- What `table_rule_add_bulk_ll` returns of a list.
  abbrev Returned :
      Option ℕ → ℕ → Bool → T → List (Rule Match (RuleAction X)) → T × LlResult dp → Type 0
  Returned a i bulk t list (t', inl status) = Unit
  Returned a i bulk t list (t', inr (list', n)) =
      (n ≤ length list)
      × (1 ≤ length list → 1 ≤ n)
      × (entries : List (MatchLl × E)) × (handles : List ℕ) × (convert_rules dp a list
          ≡ inr entries)
      × Added bulk i t entries handles n t'
      × (list' ≡ write_back list handles)

  add_in_bulk-Returned :
      (a : Option ℕ) (i : ℕ) (t : T) (list : List (Rule Match (RuleAction X)))
      (entries : List (MatchLl × E))
      → convert_rules dp a list ≡ inr entries
      → Returned a i true t list (add_in_bulk dp list (dp.entry_add_bulk t i entries))
  add_in_bulk-Returned a i t list entries h =
      elim (Bool-cases (is_nonzero (dp.entry_add_bulk t i entries).1)) [
        | inl e ↦ rw e tt
        | inr e ↦ rw e (
          omega arith,
          (λ l. l),
          entries,
          (dp.entry_add_bulk t i entries).2,
          h,
          (sym (length-convert_rules dp a list entries h), e, refl, refl),
          refl,
        )
      ]

  add_singly-Returned :
      (a : Option ℕ) (i : ℕ) (t : T) (list : List (Rule Match (RuleAction X)))
      (entries : List (MatchLl × E))
      → convert_rules dp a list ≡ inr entries
      → Returned a i false t list (add_singly dp list (add_each dp t i entries))
  add_singly-Returned a i t list entries h =
      let same = length-convert_rules dp a list entries h in
      let (small, all) = length-add_each dp t i entries in
      elim (Bool-cases
        (is_nonzero (add_each dp t i entries).2 && (length (add_each dp t i entries).1 == 0))) [
          | inl e ↦ rw e tt
          | inr e ↦ rw e (
            omega arith,
            (λ nonempty. elim (Bool-cases (is_nonzero (add_each dp t i entries).2)) [
              | inl e' ↦ ground arith
              | inr e' ↦ let full = all e' in omega arith
            ]),
            entries,
            (add_each dp t i entries).1,
            h,
            (refl, add_each-AddedSingly i t entries),
            refl,
          )
        ]

  table_rule_add_bulk_ll-Returned :
      (buffers : Bool) (t : T) (a : Option ℕ) (i : ℕ) (bulk : Bool)
      (list : List (Rule Match (RuleAction X)))
      → Returned a i bulk t list (table_rule_add_bulk_ll dp buffers t a i bulk list)
  unfolding table_rule_add_bulk_ll
  table_rule_add_bulk_ll-Returned false t a i bulk list = tt
  table_rule_add_bulk_ll-Returned true t a i bulk list =
      elim (Sum-cases (convert_rules dp a list)) [
        | inl (status, e) ↦ rw (e, table_rule_add_bulk_ll) tt
        | inr (entries, e) ↦ rw (e, table_rule_add_bulk_ll) (either bulk entries e)
      ]
    where
      either :
          (bulk : Bool) (entries : List (MatchLl × E))
          → convert_rules dp a list ≡ inr entries
          → Returned a i bulk t list (
              if bulk
              then add_in_bulk dp list (dp.entry_add_bulk t i entries)
              else add_singly dp list (add_each dp t i entries))
      either true entries h = add_in_bulk-Returned a i t list entries h
      either false entries h = add_singly-Returned a i t list entries h

  response-Returned :
      (a : Option ℕ) (i : ℕ) (bulk : Bool) (t : T) (list : List (Rule Match (RuleAction X)))
      (r : T × LlResult dp)
      → Returned a i bulk t list r
      → Returned a i bulk t list (response dp r)
  response-Returned a i bulk t list (t', inl status) h = tt
  response-Returned a i bulk t list (t', inr added) h = h

  module _ {H : Type 0} where
    -- The action object by which the entries are built.
    abbrev pub action_object : Env → ℕ → Control H X T → Option ℕ
    action_object env i c = if env.running then env.table_data i else (c.tables.table i).a

    -- With an error no list of rules has changed. Otherwise the numbers `n` and `left` make up the list,
    -- `n` is positive, `n` entries of the list have been added to the data plane, and the table's list
    -- is what the first `n` rules of the list, with the handles of their entries, make of it.
    abbrev pub IsReport :
        Option ℕ
        → ℕ
        → List (Rule Match (RuleAction X))
        → Control H X T
        → Control H X T × (RteStatus ⊎ (ℕ × ℕ))
        → Type 0
    IsReport a i list c (c', inl status) = c'.tables ≡ c.tables
    IsReport a i list c (c', inr (n, left)) =
        (n + left ≡ length list)
        × (1 ≤ n)
        × (entries : List (MatchLl × E)) × (handles : List ℕ) × (convert_rules dp a list
            ≡ inr entries)
        × Added (is_acl (c.tables.table i).params) i c.lower entries handles n c'.lower
        × ((rules_of dp c' i).rules
            ≡ (add_rules n (rules_of dp c i).rules (write_back list handles)).0)

    store_rules-IsReport :
        (a : Option ℕ) (i : ℕ) (list : List (Rule Match (RuleAction X))) (c : Control H X T)
        (r : T × LlResult dp)
        → 1 ≤ length list
        → Returned a i (is_acl (c.tables.table i).params) c.lower list r
        → IsReport a i list c (store_rules dp c i r)
    unfolding table_rule_add_bulk
    store_rules-IsReport a i list c (t, inl status) nonempty h = refl
    store_rules-IsReport a i list c (t, inr (list', n)) nonempty
          (small, some_added, entries, handles, h, added, list-eq) =
        let same : length list' ≡ length list =
          ap length list-eq ∙ length-write_back list handles in
        let here : (i == i) ≡ true = ground arith in
        (
          length-add_rules X n (rules_of dp c i).rules list' (omega arith) ∙ same,
          some_added nonempty,
          entries,
          handles,
          h,
          added,
          ap
                (λ (b : Bool).
                  (if b
                    then record (c.tables.table i) {
                      rule_table = record (rules_of dp c i) {
                        rules = (add_rules n (rules_of dp c i).rules list').0;
                      };
                    }
                    else c.tables.table i).rule_table.rules)
                here
              ∙ ap (λ z. (add_rules n (rules_of dp c i).rules z).0) list-eq,
        )

    add_bulk_checked-IsReport :
        (env : Env) (i : ℕ) (list : List (Rule Match (RuleAction X))) (c : Control H X T)
        → 1 ≤ length list
        → IsReport (action_object env i c) i list c (add_bulk_checked dp env i list c)
    unfolding add_bulk_checked pipeline_msg_handle_table_rule_add_bulk
    add_bulk_checked-IsReport env i list c nonempty =
        let bulk = is_acl (c.tables.table i).params in
        let result =
          λ (a : Option ℕ). table_rule_add_bulk_ll-Returned env.rule_alloc c.lower a i bulk list in
        elim (Bool-cases (env.running && not env.work_alloc)) [
          | inl e ↦ rw e refl
          | inr e ↦ elim (Bool-cases env.running) [
            | inl running ↦
                let a = env.table_data i in
                rw (e, running)
                  (store_rules-IsReport a i list c _ nonempty
                    (response-Returned a i bulk c.lower list _ (result a)))
            | inr stopped ↦
                let a = (c.tables.table i).a in
                rw (e, stopped) (store_rules-IsReport a i list c _ nonempty (result a))
          ]
        ]

    -- Unless a null pointer is read, `pipeline_table_rule_add_bulk` either reports an error, and then no
    -- list of rules has changed; or it reports two numbers that make up the list that it was given,
    -- the first of them positive. The first is then the number of entries that have been added to the
    -- data plane, all by one successful addition for an ACL, else one by one up to the first addition
    -- that failed; and the rules added to the table's list are as many, the first ones of the list,
    -- with the handles of their entries. The entries are built by the action object of the thread
    -- where the pipeline runs, else by that of the main thread.
    pub pipeline_table_rule_add_bulk-IsReport :
        (env : Env) (table_id : ℕ) (list : List (Rule Match (RuleAction X))) (c : Control H X T)
        (result : Control H X T × (RteStatus ⊎ (ℕ × ℕ)))
        → pipeline_table_rule_add_bulk dp env table_id (some list) c ≡ some result
        → IsReport (action_object env table_id c) table_id list c result
    unfolding pipeline_table_rule_add_bulk
    pipeline_table_rule_add_bulk-IsReport env table_id [] c result h =
        subst (IsReport (action_object env table_id c) table_id [] c) (some-injective _ _ h) refl
    pipeline_table_rule_add_bulk-IsReport env table_id (rule ∷ list) c result h =
        elim (Bool-cases (ltb table_id c.tables.n_tables)) [
          | inr e ↦ refused (rw (e, pipeline_table_rule_add_bulk) at h)
          | inl e ↦ elim (Option-cases (check_rules dp c.tables table_id (rule ∷ list))) [
            | inl e' ↦ absurd (none_some (rw (e, e', pipeline_table_rule_add_bulk) at h))
            | inr (false, e') ↦ refused (rw (e, e', pipeline_table_rule_add_bulk) at h)
            | inr (true, e') ↦
                subst (IsReport (action_object env table_id c) table_id (rule ∷ list) c)
                  (some-injective _ _ (rw (e, e', pipeline_table_rule_add_bulk) at h))
                  (add_bulk_checked-IsReport env table_id (rule ∷ list) c (omega arith))
          ]
        ]
      where
        none_some : {A : Type 0} {a : A} → none ≡ some a → ⊥
        none_some q = cc

        refused :
            some (c, inl negative) ≡ some result
            → IsReport (action_object env table_id c) table_id (rule ∷ list) c result
        refused q =
            subst (IsReport (action_object env table_id c) table_id (rule ∷ list) c)
              (some-injective _ _ q) refl

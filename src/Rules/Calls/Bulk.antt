-- ===== src/Rules/Calls/Bulk.antt =====
-- thread.c: `pipeline_table_rule_add_bulk`, the addition of a list of rules, with the conversion and
-- the additions of `table_rule_add_bulk_ll`. `inl` is the status of a failure.
pub mod Chains
pub mod Counts
pub mod Kept
pub mod Lengths
use rids.Prelude.{
  ℕ, zero, suc, ◌⊎◌, inl, inr, Bool, true, false, not, ◌&&◌, ◌||◌, List, [], ◌∷◌, Option, none,
  some, if◌then◌else◌, ltb, ◌==◌, length,
}
use rids.Registry.{RteStatus, success, negative, is_nonzero}
use rids.Rules.{Rule, table_rule_add_bulk}
use rids.Rules.Match.{Match, match_equality}
use rids.Rules.Convert.{MatchLl, match_convert}
use rids.Rules.Check.{TableParams, acl_params, Tables, RuleAction, match_check, action_check}
use rids.Rules.Calls.{DataPlane, Control, Env, action_convert, with_rules, rules_of}

-- table_rule_list_free
abbrev pub table_rule_list_free : {R : Type 0} → List R → ℕ
table_rule_list_free list = length list

-- The handles are written to the first rules of the list.
unfoldable pub write_back : {M A : Type 0} → List (Rule M A) → List ℕ → List (Rule M A)
write_back [] handles = []
write_back (r ∷ list) [] = r ∷ list
write_back (r ∷ list) (handle ∷ handles) = record r { entry = handle } ∷ write_back list handles

-- match_type == TABLE_ACL
abbrev pub is_acl : {H : Type 0} → TableParams H → Bool
is_acl (acl_params n_rules offset ip_version) = true
is_acl _ = false

module _ {X T E : Type 0} (dp : DataPlane X T E) where
  -- The loop of conversions.
  unfoldable pub convert_rules :
      Option ℕ → List (Rule Match (RuleAction X)) → RteStatus ⊎ List (MatchLl × E)
  unfolding match_convert action_convert
  convert_rules a [] = inr []
  convert_rules a (rule ∷ list) = elim (match_convert rule.match true) [
    | none ↦ inl negative
    | some key ↦ elim (is_nonzero (action_convert dp a rule.action).1) [
      | true ↦ inl (action_convert dp a rule.action).1
      | false ↦ elim (convert_rules a list) [
        | inl status ↦ inl status
        | inr entries ↦ inr ((key, (action_convert dp a rule.action).0) ∷ entries)
      ]
    ]
  ]

  -- The loop of single additions, up to the first that fails: the handles, and its status.
  unfoldable pub add_each : T → ℕ → List (MatchLl × E) → T × List ℕ × RteStatus
  add_each t table_id [] = (t, [], success)
  add_each t table_id ((key, entry) ∷ rest) =
      let (t', status, handle) = dp.entry_add t table_id key entry in
      elim (is_nonzero status) [
        | true ↦ (t', [], status)
        | false ↦
            let (t'', handles, status') = add_each t' table_id rest in
            (t'', handle ∷ handles, status')
      ]

  abbrev pub LlResult : Type 0
  LlResult = RteStatus ⊎ (List (Rule Match (RuleAction X)) × ℕ)

  abbrev pub add_in_bulk : List (Rule Match (RuleAction X)) → T × RteStatus × List ℕ → T × LlResult
  add_in_bulk list (t, status, handles) =
      (t, if is_nonzero status then inl status else inr (write_back list handles, length list))

  -- A failure after the first addition is not reported.
  abbrev pub add_singly : List (Rule Match (RuleAction X)) → T × List ℕ × RteStatus → T × LlResult
  add_singly list (t, handles, status) = (
    t,
    if is_nonzero status && (length handles == 0)
        then inl status
        else inr (write_back list handles, length handles),
  )

  -- The list with the handles, and n_rules.
  unfoldable pub table_rule_add_bulk_ll :
      Bool → T → Option ℕ → ℕ → Bool → List (Rule Match (RuleAction X)) → T × LlResult
  unfolding convert_rules add_each write_back
  table_rule_add_bulk_ll buffers t a table_id bulk_supported list =
      if not buffers then (t, inl negative) else elim (convert_rules a list) [
        | inl status ↦ (t, inl status)
        | inr entries ↦
            if bulk_supported
            then add_in_bulk list (dp.entry_add_bulk t table_id entries)
            else add_singly list (add_each t table_id entries)
      ]

  -- The status of a failure is -1 in the response.
  abbrev pub response : T × LlResult → T × LlResult
  response (t, inl status) = (t, inl negative)
  response (t, inr added) = (t, inr added)

  unfoldable pub pipeline_msg_handle_table_rule_add_bulk :
      Bool → T → Option ℕ → ℕ → Bool → List (Rule Match (RuleAction X)) → T × LlResult
  unfolding table_rule_add_bulk_ll
  pipeline_msg_handle_table_rule_add_bulk buffers t a table_id bulk list =
      response (table_rule_add_bulk_ll buffers t a table_id bulk list)

  module _ {H : Type 0} where
    -- The tests of all rules; `none`: a null pointer is read.
    unfoldable pub check_rules : Tables H X → ℕ → List (Rule Match (RuleAction X)) → Option Bool
    unfolding match_check action_check
    check_rules p table_id [] = some true
    check_rules p table_id (rule ∷ list) =
        let rest = check_rules p table_id list in
        if match_check rule.match p table_id
        then elim (action_check rule.action p table_id) [
          | none ↦ none
          | some false ↦ some false
          | some true ↦ rest
        ]
        else some false

    -- The rules are moved to the table's list; n_rules_added and n_rules_not_added.
    abbrev pub store_rules :
        Control H X T → ℕ → T × LlResult → Control H X T × (RteStatus ⊎ (ℕ × ℕ))
    store_rules c table_id (lower, inl status) = (record c { lower = lower }, inl status)
    store_rules c table_id (lower, inr (list, n_rules)) =
        let (rules, rest) = table_rule_add_bulk (rules_of dp c table_id) list n_rules in
        (with_rules dp c table_id lower rules, inr (n_rules, table_rule_list_free rest))

    -- `rule_alloc` is about the buffers, `work_alloc` about the request.
    unfoldable pub add_bulk_checked :
        Env
        → ℕ
        → List (Rule Match (RuleAction X))
        → Control H X T
        → Control H X T × (RteStatus ⊎ (ℕ × ℕ))
    unfolding table_rule_add_bulk_ll pipeline_msg_handle_table_rule_add_bulk
    add_bulk_checked env table_id list c =
        let a = (c.tables.table table_id).a in
        let thread_a = env.table_data table_id in
        let bulk = is_acl (c.tables.table table_id).params in
        if env.running && not env.work_alloc
        then (c, inl negative)
        else store_rules c table_id (
            if env.running
            then pipeline_msg_handle_table_rule_add_bulk env.rule_alloc c.lower thread_a table_id
                bulk list
            else table_rule_add_bulk_ll env.rule_alloc c.lower a table_id bulk list)

    unfoldable pub pipeline_table_rule_add_bulk :
        Env
        → ℕ
        → Option (List (Rule Match (RuleAction X)))
        → Control H X T
        → Option (Control H X T × (RteStatus ⊎ (ℕ × ℕ)))
    unfolding add_bulk_checked
    pipeline_table_rule_add_bulk env table_id none c = some (c, inl negative)
    pipeline_table_rule_add_bulk env table_id (some []) c = some (c, inl negative)
    pipeline_table_rule_add_bulk env table_id (some (rule ∷ list)) c =
        if ltb table_id c.tables.n_tables
        then elim (check_rules c.tables table_id (rule ∷ list)) [
          | none ↦ none
          | some false ↦ some (c, inl negative)
          | some true ↦ some (add_bulk_checked env table_id (rule ∷ list) c)
        ]
        else some (c, inl negative)

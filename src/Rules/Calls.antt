-- ===== src/Rules/Calls.antt =====
-- thread.c: the calls of the main thread that change the rules of a table, and the messages by which a
-- running thread changes its tables. The pipeline is the one that `pipeline_find` has found.
pub mod Entries
pub mod Agreement
pub mod Bulk
pub mod Sequences
use rids.Prelude.{
  ℕ, zero, suc, Bool, true, false, not, ◌&&◌, ◌||◌, List, [], ◌∷◌, Option, none, some,
  if◌then◌else◌, ltb, ◌==◌, length,
}
use rids.Action.Table.{TableAction, registration_order}
use rids.Registry.{RteStatus, success, negative, is_nonzero}
use rids.Rules.{
  Rule, RuleTable, table_rule_add, table_rule_add_bulk, table_rule_delete, table_rule_default_add,
  table_rule_default_delete,
}
use rids.Rules.Match.{Match, match_equality}
use rids.Rules.Convert.{MatchLl, match_convert}
use rids.Rules.Check.{
  Tables, PipelineTable, TableParams, acl_params, RuleAction, FwdAction, to_port, to_table,
  elsewhere, match_check, action_check, action_default_check,
}

-- The tables of DPDK, in a state `T`: entries are built by rte_table_action_apply from the zeroed
-- `blank`, and added and deleted by their keys; an entry added has a handle.
pub record DataPlane (X T E : Type 0) : Type 0 where
  pub blank : E
  pub apply : Option ℕ → E → TableAction → RuleAction X → E × RteStatus
  pub entry_add : T → ℕ → MatchLl → E → T × RteStatus × ℕ
  pub entry_add_bulk : T → ℕ → List (MatchLl × E) → T × RteStatus × List ℕ
  pub entry_delete : T → ℕ → MatchLl → T × RteStatus
  pub default_entry_add : T → ℕ → FwdAction → Option ℕ → T × RteStatus × ℕ
  pub default_entry_delete : T → ℕ → T × RteStatus

-- What the main thread knows of a pipeline, and the tables of the data plane.
pub record Control (H X T : Type 0) : Type 0 where
  pub tables : Tables H X
  pub lower : T

-- Whether the pipeline runs, and whether the allocations succeed: of the rule, and of the buffers
-- or the request; and p->table_data[].a, the action objects that the running thread has.
pub record Env : Type 0 where
  pub running : Bool
  pub rule_alloc : Bool
  pub work_alloc : Bool
  pub table_data : ℕ → Option ℕ

module _ {X T E : Type 0} (dp : DataPlane X T E) where
  -- action_convert over the actions that are left: the entry, and the status of the first action that
  -- was refused.
  unfoldable pub convert_actions : Option ℕ → RuleAction X → List TableAction → E → E × RteStatus
  convert_actions a action [] entry = (entry, success)
  convert_actions a action (kind ∷ rest) entry = elim (action.action_mask kind) [
    | false ↦ convert_actions a action rest entry
    | true ↦
        let (entry', status) = dp.apply a entry kind action in
        elim (is_nonzero status) [
          | true ↦ (entry', status)
          | false ↦ convert_actions a action rest entry'
        ]
  ]

  unfoldable pub action_convert : Option ℕ → RuleAction X → E × RteStatus
  unfolding convert_actions
  action_convert a action = convert_actions a action registration_order dp.blank

  -- What rte_pipeline_table_entry_add stored, if it did.
  abbrev pub added : T × RteStatus × ℕ → T × Option ℕ
  added (t, status, handle) = if is_nonzero status then (t, none) else (t, some handle)

  -- The conversion and the addition, by the main thread where the pipeline does not run; `none`: the
  -- result -1.
  unfoldable pub add_stopped : T → Option ℕ → ℕ → Match → RuleAction X → T × Option ℕ
  unfolding match_convert action_convert
  add_stopped t a table_id match action = elim (match_convert match true) [
    | none ↦ (t, none)
    | some key ↦ elim (is_nonzero (action_convert a action).1) [
      | true ↦ (t, none)
      | false ↦ added (dp.entry_add t table_id key (action_convert a action).0)
    ]
  ]

  -- The same by a running thread: rsp->status and rsp->table_rule_add.data.
  unfoldable pub pipeline_msg_handle_table_rule_add :
      T → Option ℕ → ℕ → Match → RuleAction X → T × Option ℕ
  unfolding match_convert action_convert
  pipeline_msg_handle_table_rule_add t a table_id match action = elim (match_convert match true) [
    | none ↦ (t, none)
    | some key ↦ elim (is_nonzero (action_convert a action).1) [
      | true ↦ (t, none)
      | false ↦ added (dp.entry_add t table_id key (action_convert a action).0)
    ]
  ]

  -- data_in of a default rule: the action, and the port or table of the two that have one.
  abbrev pub default_target : FwdAction → ℕ → Option ℕ
  default_target to_port id = some id
  default_target to_table id = some id
  default_target elsewhere id = none

  unfoldable pub pipeline_msg_handle_table_rule_add_default : T → ℕ → RuleAction X → T × Option ℕ
  pipeline_msg_handle_table_rule_add_default t table_id action = added (
      dp.default_entry_add t table_id action.fwd_action
        (default_target action.fwd_action action.fwd_id))

  unfoldable pub delete_stopped : T → ℕ → Match → T × RteStatus
  unfolding match_convert
  delete_stopped t table_id match = elim (match_convert match false) [
    | none ↦ (t, negative)
    | some key ↦ dp.entry_delete t table_id key
  ]

  unfoldable pub pipeline_msg_handle_table_rule_delete : T → ℕ → Match → T × RteStatus
  unfolding match_convert
  pipeline_msg_handle_table_rule_delete t table_id match = elim (match_convert match false) [
    | none ↦ (t, negative)
    | some key ↦ dp.entry_delete t table_id key
  ]

  unfoldable pub pipeline_msg_handle_table_rule_delete_default : T → ℕ → T × RteStatus
  pipeline_msg_handle_table_rule_delete_default t table_id = dp.default_entry_delete t table_id

  module _ {H : Type 0} where
    -- table = &p->table[table_id]; the write through this pointer.
    abbrev pub with_rules : Control H X T → ℕ → T → RuleTable Match (RuleAction X) → Control H X T
    with_rules c table_id lower rules = record {
      tables = record c.tables {
        table = λ i.
            if i == table_id
            then record (c.tables.table i) { rule_table = rules }
            else c.tables.table i;
      };
      lower = lower;
    }

    abbrev pub rules_of : Control H X T → ℕ → RuleTable Match (RuleAction X)
    rules_of c table_id = (c.tables.table table_id).rule_table

    -- The rule is stored with its handle, or freed.
    abbrev pub store_rule :
        Control H X T → ℕ → Match → RuleAction X → T × Option ℕ → Control H X T × RteStatus
    store_rule c table_id match action (lower, none) = (record c { lower = lower }, negative)
    store_rule c table_id match action (lower, some handle) = (
      with_rules c table_id lower (
          table_rule_add (rules_of c table_id)
            (record { match = match; action = action; entry = handle })),
      success,
    )

    unfoldable pub add_checked :
        Env → ℕ → Match → RuleAction X → Control H X T → Control H X T × RteStatus
    unfolding add_stopped pipeline_msg_handle_table_rule_add
    add_checked env table_id match action c =
        let a = (c.tables.table table_id).a in
        let thread_a = env.table_data table_id in
        if not env.rule_alloc || not env.work_alloc
        then (c, negative)
        else store_rule c table_id match action (
            if env.running
            then pipeline_msg_handle_table_rule_add c.lower thread_a table_id match action
            else add_stopped c.lower a table_id match action)

    -- `none`: `action_check` reads through a null pointer.
    unfoldable pub pipeline_table_rule_add :
        Env
        → ℕ
        → Option Match
        → Option (RuleAction X)
        → Control H X T
        → Option (Control H X T × RteStatus)
    unfolding match_check action_check add_checked
    pipeline_table_rule_add env table_id (some match) (some action) c =
        if match_check match c.tables table_id
        then elim (action_check action c.tables table_id) [
          | none ↦ none
          | some true ↦ some (add_checked env table_id match action c)
          | some false ↦ some (c, negative)
        ]
        else some (c, negative)
    pipeline_table_rule_add env table_id _ _ c = some (c, negative)

    abbrev pub store_default :
        Control H X T → ℕ → Rule Match (RuleAction X) → T × Option ℕ → Control H X T × RteStatus
    store_default c table_id rule (lower, none) = (record c { lower = lower }, negative)
    store_default c table_id rule (lower, some handle) = (
      with_rules c table_id lower
          (table_rule_default_add (rules_of c table_id) (record rule { entry = handle })),
      success,
    )

    -- `no_match`: the zeroed match of a default rule. Where the pipeline does not run, the main thread
    -- does what the handler does.
    unfoldable pub pipeline_table_rule_add_default :
        Env → ℕ → Match → Option (RuleAction X) → Control H X T → Control H X T × RteStatus
    unfolding action_default_check pipeline_msg_handle_table_rule_add_default
    pipeline_table_rule_add_default env table_id no_match none c = (c, negative)
    pipeline_table_rule_add_default env table_id no_match (some action) c =
        if not (action_default_check action c.tables table_id)
          || not env.rule_alloc
          || not env.work_alloc
        then (c, negative)
        else store_default c table_id (record { match = no_match; action = action; entry = 0 })
            (pipeline_msg_handle_table_rule_add_default c.lower table_id action)

    abbrev pub drop_rule : Control H X T → ℕ → Match → T × RteStatus → Control H X T × RteStatus
    drop_rule c table_id match (lower, status) =
        if is_nonzero status
        then (record c { lower = lower }, status)
        else (with_rules c table_id lower (table_rule_delete (rules_of c table_id) match), status)

    unfoldable pub pipeline_table_rule_delete :
        Env → ℕ → Option Match → Control H X T → Control H X T × RteStatus
    unfolding match_check delete_stopped pipeline_msg_handle_table_rule_delete
    pipeline_table_rule_delete env table_id none c = (c, negative)
    pipeline_table_rule_delete env table_id (some match) c =
        if not (match_check match c.tables table_id) || (env.running && not env.work_alloc)
        then (c, negative)
        else drop_rule c table_id match (
            if env.running
            then pipeline_msg_handle_table_rule_delete c.lower table_id match
            else delete_stopped c.lower table_id match)

    abbrev drop_default : Control H X T → ℕ → T × RteStatus → Control H X T × RteStatus
    drop_default c table_id (lower, status) =
        if is_nonzero status
        then (record c { lower = lower }, status)
        else (with_rules c table_id lower (table_rule_default_delete (rules_of c table_id)), status)

    unfoldable pub pipeline_table_rule_delete_default :
        Env → ℕ → Control H X T → Control H X T × RteStatus
    unfolding pipeline_msg_handle_table_rule_delete_default
    pipeline_table_rule_delete_default env table_id c =
        if not (ltb table_id c.tables.n_tables) || (env.running && not env.work_alloc)
        then (c, negative)
        else drop_default c table_id (
            if env.running
            then pipeline_msg_handle_table_rule_delete_default c.lower table_id
            else dp.default_entry_delete c.lower table_id)

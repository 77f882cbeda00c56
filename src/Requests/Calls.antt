-- ===== src/Requests/Calls.antt =====
-- The calls of the main thread: by itself where the pipeline does not run, or by a request.
use rids.Prelude.{ℕ, ◌-◌, ◌^◌, ◌%◌, Bool, not, Option, none, some, if◌then◌else◌, leb}
use rids.Registry.{RteStatus, negative, is_nonzero}
use rids.Action.Table.{TableActionProfile}
use rids.Rules.{find_rule, Rule}
use rids.Rules.Match.{Match, match_equality}
use rids.Rules.Check.{Tables, RuleAction, ProfileConfigs, match_check}
use rids.Requests.{
  Payload, RequestApi, Request, req_port_in_stats_read, req_port_in_enable, req_port_in_disable,
  req_port_out_stats_read, req_table_stats_read, req_table_rule_stats_read,
  req_table_mtr_profile_add, req_table_mtr_profile_delete, req_table_rule_mtr_read,
  req_table_dscp_table_update, req_table_rule_ttl_read, req_table_rule_time_read, counted, timed,
  plain, handle_request,
}

-- A pipeline as the main thread knows it, with its number of input ports.
pub record Target (H X : Type 0) : Type 0 where
  pub n_ports_in : ℕ
  pub tables : Tables H X

-- Whether the pipeline runs, whether a request can be allocated, and what the thread knows.
pub record Platform : Type 0 where
  pub running : Bool
  pub msg_alloc : Bool
  pub table_data : ℕ → Option ℕ

module _ {S T : Type 0} where
  -- The status, and the output where the status is 0.
  abbrev pub answer : T × RteStatus × Payload S → T × RteStatus × Option (Payload S)
  answer (t, status, payload) = (t, status, if is_nonzero status then none else some payload)

  abbrev pub refuse : T → T × RteStatus × Option (Payload S)
  refuse t = (t, negative, none)

-- (1 << n_tc) - 1, in 32 bits
abbrev pub tc_mask_of : TableActionProfile ProfileConfigs → ℕ
tc_mask_of profile = (2 ^ profile.params.other_configs.n_tc - 1) % 2 ^ 32

module _ {S M D T : Type 0} (api : RequestApi S M D T) where
  -- By the main thread itself, or by pipeline_msg_send_recv.
  abbrev pub exchange :
      Platform → T × RteStatus × Payload S → Request M D → T → T × RteStatus × Option (Payload S)
  exchange env itself req t =
      if env.running
      then (if env.msg_alloc then answer (handle_request api t env.table_data req) else refuse t)
      else answer itself

  module _ {H X : Type 0} where
    unfoldable pub pipeline_port_in_stats_read :
        Platform → Target H X → ℕ → Bool → T → T × RteStatus × Option (Payload S)
    pipeline_port_in_stats_read env p port_id clear t =
        if leb p.n_ports_in port_id
        then refuse t
        else exchange env (counted (api.port_in_stats_read t port_id clear))
            (req_port_in_stats_read port_id clear) t

    unfoldable pub pipeline_port_in_enable :
        Platform → Target H X → ℕ → T → T × RteStatus × Option (Payload S)
    pipeline_port_in_enable env p port_id t =
        if leb p.n_ports_in port_id
        then refuse t
        else exchange env (plain (api.port_in_enable t port_id)) (req_port_in_enable port_id) t

    unfoldable pub pipeline_port_in_disable :
        Platform → Target H X → ℕ → T → T × RteStatus × Option (Payload S)
    pipeline_port_in_disable env p port_id t =
        if leb p.n_ports_in port_id
        then refuse t
        else exchange env (plain (api.port_in_disable t port_id)) (req_port_in_disable port_id) t

    unfoldable pub pipeline_port_out_stats_read :
        Platform → Target H X → ℕ → Bool → T → T × RteStatus × Option (Payload S)
    pipeline_port_out_stats_read env p port_id clear t =
        if leb p.tables.n_ports_out port_id
        then refuse t
        else exchange env (counted (api.port_out_stats_read t port_id clear))
            (req_port_out_stats_read port_id clear) t

    unfoldable pub pipeline_table_stats_read :
        Platform → Target H X → ℕ → Bool → T → T × RteStatus × Option (Payload S)
    pipeline_table_stats_read env p table_id clear t =
        if leb p.tables.n_tables table_id
        then refuse t
        else exchange env (counted (api.table_stats_read t table_id clear))
            (req_table_stats_read table_id clear) t

    unfoldable pub pipeline_table_mtr_profile_add :
        Platform → Target H X → ℕ → ℕ → Option M → T → T × RteStatus × Option (Payload S)
    pipeline_table_mtr_profile_add env p table_id meter_profile_id none t = refuse t
    pipeline_table_mtr_profile_add env p table_id meter_profile_id (some profile) t =
        if leb p.tables.n_tables table_id
        then refuse t
        else exchange env
            (plain (api.meter_profile_add t (p.tables.table table_id).a meter_profile_id profile))
            (req_table_mtr_profile_add table_id meter_profile_id profile) t

    unfoldable pub pipeline_table_mtr_profile_delete :
        Platform → Target H X → ℕ → ℕ → T → T × RteStatus × Option (Payload S)
    pipeline_table_mtr_profile_delete env p table_id meter_profile_id t =
        if leb p.tables.n_tables table_id
        then refuse t
        else exchange env
            (plain (api.meter_profile_delete t (p.tables.table table_id).a meter_profile_id))
            (req_table_mtr_profile_delete table_id meter_profile_id) t

    unfoldable pub pipeline_table_dscp_table_update :
        Platform → Target H X → ℕ → ℕ → Option D → T → T × RteStatus × Option (Payload S)
    pipeline_table_dscp_table_update env p table_id dscp_mask none t = refuse t
    pipeline_table_dscp_table_update env p table_id dscp_mask (some dscp_table) t =
        if leb p.tables.n_tables table_id
        then refuse t
        else exchange env
            (plain (api.dscp_table_update t (p.tables.table table_id).a dscp_mask dscp_table))
            (req_table_dscp_table_update table_id dscp_mask dscp_table) t

    -- table_rule_find in the table of the match.
    abbrev pub rule_in : Target H X → ℕ → Match → Option (Rule Match (RuleAction X))
    rule_in p table_id match = find_rule (p.tables.table table_id).rule_table.rules match

    unfoldable pub pipeline_table_rule_stats_read :
        Platform → Target H X → ℕ → Option Match → Bool → T → T × RteStatus × Option (Payload S)
    unfolding match_check
    pipeline_table_rule_stats_read env p table_id none clear t = refuse t
    pipeline_table_rule_stats_read env p table_id (some match) clear t =
        if match_check match p.tables table_id
        then elim (rule_in p table_id match) [
          | none ↦ refuse t
          | some rule ↦
              exchange env
                (counted (api.action_stats_read t (p.tables.table table_id).a rule.entry clear))
                (req_table_rule_stats_read table_id rule.entry clear) t
        ]
        else refuse t

    unfoldable pub pipeline_table_rule_time_read :
        Platform → Target H X → ℕ → Option Match → T → T × RteStatus × Option (Payload S)
    unfolding match_check
    pipeline_table_rule_time_read env p table_id none t = refuse t
    pipeline_table_rule_time_read env p table_id (some match) t =
        if match_check match p.tables table_id
        then elim (rule_in p table_id match) [
          | none ↦ refuse t
          | some rule ↦
              exchange env (timed (api.time_read t (p.tables.table table_id).a rule.entry))
                (req_table_rule_time_read table_id rule.entry) t
        ]
        else refuse t

    -- `none`: the profile of a table without one is read.
    unfoldable pub pipeline_table_rule_mtr_read :
        Platform
        → Target H X
        → ℕ
        → Option Match
        → Bool
        → T
        → Option (T × RteStatus × Option (Payload S))
    unfolding match_check
    pipeline_table_rule_mtr_read env p table_id none clear t = some (refuse t)
    pipeline_table_rule_mtr_read env p table_id (some match) clear t =
        if match_check match p.tables table_id
        then elim (p.tables.table table_id).profile [
          | none ↦ none
          | some found ↦ elim (rule_in p table_id match) [
            | none ↦ some (refuse t)
            | some rule ↦ some (
                exchange env
                  (counted (
                    api.meter_read t (p.tables.table table_id).a rule.entry (tc_mask_of found)
                      clear))
                  (req_table_rule_mtr_read table_id rule.entry (tc_mask_of found) clear) t)
          ]
        ]
        else some (refuse t)

    unfoldable pub pipeline_table_rule_ttl_read :
        Platform
        → Target H X
        → ℕ
        → Option Match
        → Bool
        → T
        → Option (T × RteStatus × Option (Payload S))
    unfolding match_check
    pipeline_table_rule_ttl_read env p table_id none clear t = some (refuse t)
    pipeline_table_rule_ttl_read env p table_id (some match) clear t =
        if match_check match p.tables table_id
        then elim (p.tables.table table_id).profile [
          | none ↦ none
          | some found ↦
              if not found.params.other_configs.n_packets_enabled
              then some (refuse t)
              else elim (rule_in p table_id match) [
                | none ↦ some (refuse t)
                | some rule ↦ some (
                    exchange env
                      (counted (api.ttl_read t (p.tables.table table_id).a rule.entry clear))
                      (req_table_rule_ttl_read table_id rule.entry clear) t)
              ]
        ]
        else some (refuse t)

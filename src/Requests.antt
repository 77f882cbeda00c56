-- ===== src/Requests.antt =====
-- thread.c: the requests of the main thread that read counters of a pipeline or pass a setting on to
-- it, and their handlers in a running thread. Output pointers are not null; what a call leaves in
-- its output counts where the status is 0.
pub mod Calls
pub mod Transparent
use rids.Prelude.{ℕ, Bool, List, [], ◌∷◌, Option, none, some}
use rids.Registry.{RteStatus, negative}

-- What is read: counters, or a time.
pub data Payload (S : Type 0) : Type 0 where
  nothing : Payload S
  counters : S → Payload S
  timestamp : ℕ → Payload S

-- The calls of DPDK in a state `T`. Calls on rules and meters take the table's action object; a rule is
-- given by its handle.
pub record RequestApi (S M D T : Type 0) : Type 0 where
  pub port_in_stats_read : T → ℕ → Bool → T × RteStatus × S
  pub port_in_enable : T → ℕ → T × RteStatus
  pub port_in_disable : T → ℕ → T × RteStatus
  pub port_out_stats_read : T → ℕ → Bool → T × RteStatus × S
  pub table_stats_read : T → ℕ → Bool → T × RteStatus × S
  pub action_stats_read : T → Option ℕ → ℕ → Bool → T × RteStatus × S
  pub meter_profile_add : T → Option ℕ → ℕ → M → T × RteStatus
  pub meter_profile_delete : T → Option ℕ → ℕ → T × RteStatus
  pub meter_read : T → Option ℕ → ℕ → ℕ → Bool → T × RteStatus × S
  pub dscp_table_update : T → Option ℕ → ℕ → D → T × RteStatus
  pub ttl_read : T → Option ℕ → ℕ → Bool → T × RteStatus × S
  pub time_read : T → Option ℕ → ℕ → T × RteStatus × ℕ

-- The requests of `struct pipeline_msg_req` of this kind, with their id first.
pub data Request (M D : Type 0) : Type 0 where
  req_port_in_stats_read req_port_out_stats_read req_table_stats_read :
      (id : ℕ) → (clear : Bool) → Request M D
  req_port_in_enable req_port_in_disable : (id : ℕ) → Request M D
  req_table_rule_stats_read req_table_rule_ttl_read :
      (id data_in : ℕ) → (clear : Bool) → Request M D
  req_table_mtr_profile_add : (id meter_profile_id : ℕ) → M → Request M D
  req_table_mtr_profile_delete : (id meter_profile_id : ℕ) → Request M D
  req_table_rule_mtr_read : (id data_in tc_mask : ℕ) → (clear : Bool) → Request M D
  req_table_dscp_table_update : (id dscp_mask : ℕ) → D → Request M D
  req_table_rule_time_read : (id data_in : ℕ) → Request M D
  req_unknown : Request M D

module _ {S T : Type 0} where
  abbrev pub counted : T × RteStatus × S → T × RteStatus × Payload S
  counted (t, status, stats) = (t, status, counters stats)

  abbrev pub timed : T × RteStatus × ℕ → T × RteStatus × Payload S
  timed (t, status, time) = (t, status, timestamp time)

  abbrev pub plain : T × RteStatus → T × RteStatus × Payload S
  plain (t, status) = (t, status, nothing)

module _ {S M D T : Type 0} (api : RequestApi S M D T) where
  -- The handlers; `table_data` has the action objects that the thread knows.
  unfoldable pub pipeline_msg_handle_port_in_stats_read : T → ℕ → Bool → T × RteStatus × Payload S
  pipeline_msg_handle_port_in_stats_read t port_id clear =
      counted (api.port_in_stats_read t port_id clear)

  unfoldable pub pipeline_msg_handle_port_in_enable : T → ℕ → T × RteStatus × Payload S
  pipeline_msg_handle_port_in_enable t port_id = plain (api.port_in_enable t port_id)

  unfoldable pub pipeline_msg_handle_port_in_disable : T → ℕ → T × RteStatus × Payload S
  pipeline_msg_handle_port_in_disable t port_id = plain (api.port_in_disable t port_id)

  unfoldable pub pipeline_msg_handle_port_out_stats_read : T → ℕ → Bool → T × RteStatus × Payload S
  pipeline_msg_handle_port_out_stats_read t port_id clear =
      counted (api.port_out_stats_read t port_id clear)

  unfoldable pub pipeline_msg_handle_table_stats_read : T → ℕ → Bool → T × RteStatus × Payload S
  pipeline_msg_handle_table_stats_read t table_id clear =
      counted (api.table_stats_read t table_id clear)

  unfoldable pub pipeline_msg_handle_table_rule_stats_read :
      T → (ℕ → Option ℕ) → ℕ → ℕ → Bool → T × RteStatus × Payload S
  pipeline_msg_handle_table_rule_stats_read t table_data table_id rule clear =
      counted (api.action_stats_read t (table_data table_id) rule clear)

  unfoldable pub pipeline_msg_handle_table_mtr_profile_add :
      T → (ℕ → Option ℕ) → ℕ → ℕ → M → T × RteStatus × Payload S
  pipeline_msg_handle_table_mtr_profile_add t table_data table_id meter_profile_id profile =
      plain (api.meter_profile_add t (table_data table_id) meter_profile_id profile)

  unfoldable pub pipeline_msg_handle_table_mtr_profile_delete :
      T → (ℕ → Option ℕ) → ℕ → ℕ → T × RteStatus × Payload S
  pipeline_msg_handle_table_mtr_profile_delete t table_data table_id meter_profile_id =
      plain (api.meter_profile_delete t (table_data table_id) meter_profile_id)

  unfoldable pub pipeline_msg_handle_table_rule_mtr_read :
      T → (ℕ → Option ℕ) → ℕ → ℕ → ℕ → Bool → T × RteStatus × Payload S
  pipeline_msg_handle_table_rule_mtr_read t table_data table_id rule tc_mask clear =
      counted (api.meter_read t (table_data table_id) rule tc_mask clear)

  unfoldable pub pipeline_msg_handle_table_dscp_table_update :
      T → (ℕ → Option ℕ) → ℕ → ℕ → D → T × RteStatus × Payload S
  pipeline_msg_handle_table_dscp_table_update t table_data table_id dscp_mask dscp_table =
      plain (api.dscp_table_update t (table_data table_id) dscp_mask dscp_table)

  unfoldable pub pipeline_msg_handle_table_rule_ttl_read :
      T → (ℕ → Option ℕ) → ℕ → ℕ → Bool → T × RteStatus × Payload S
  pipeline_msg_handle_table_rule_ttl_read t table_data table_id rule clear =
      counted (api.ttl_read t (table_data table_id) rule clear)

  unfoldable pub pipeline_msg_handle_table_rule_time_read :
      T → (ℕ → Option ℕ) → ℕ → ℕ → T × RteStatus × Payload S
  pipeline_msg_handle_table_rule_time_read t table_data table_id rule =
      timed (api.time_read t (table_data table_id) rule)

  -- The switch of pipeline_msg_handle, without the requests that change rules.
  unfoldable pub handle_request : T → (ℕ → Option ℕ) → Request M D → T × RteStatus × Payload S
  unfolding pipeline_msg_handle_port_in_stats_read pipeline_msg_handle_port_in_enable
      pipeline_msg_handle_port_in_disable pipeline_msg_handle_port_out_stats_read
      pipeline_msg_handle_table_stats_read pipeline_msg_handle_table_rule_stats_read
      pipeline_msg_handle_table_mtr_profile_add pipeline_msg_handle_table_mtr_profile_delete
      pipeline_msg_handle_table_rule_mtr_read pipeline_msg_handle_table_dscp_table_update
      pipeline_msg_handle_table_rule_ttl_read pipeline_msg_handle_table_rule_time_read
  handle_request t table_data (req_port_in_stats_read id clear) =
      pipeline_msg_handle_port_in_stats_read t id clear
  handle_request t table_data (req_port_in_enable id) = pipeline_msg_handle_port_in_enable t id
  handle_request t table_data (req_port_in_disable id) = pipeline_msg_handle_port_in_disable t id
  handle_request t table_data (req_port_out_stats_read id clear) =
      pipeline_msg_handle_port_out_stats_read t id clear
  handle_request t table_data (req_table_stats_read id clear) =
      pipeline_msg_handle_table_stats_read t id clear
  handle_request t table_data (req_table_rule_stats_read id rule clear) =
      pipeline_msg_handle_table_rule_stats_read t table_data id rule clear
  handle_request t table_data (req_table_mtr_profile_add id meter_profile_id profile) =
      pipeline_msg_handle_table_mtr_profile_add t table_data id meter_profile_id profile
  handle_request t table_data (req_table_mtr_profile_delete id meter_profile_id) =
      pipeline_msg_handle_table_mtr_profile_delete t table_data id meter_profile_id
  handle_request t table_data (req_table_rule_mtr_read id rule tc_mask clear) =
      pipeline_msg_handle_table_rule_mtr_read t table_data id rule tc_mask clear
  handle_request t table_data (req_table_dscp_table_update id dscp_mask dscp_table) =
      pipeline_msg_handle_table_dscp_table_update t table_data id dscp_mask dscp_table
  handle_request t table_data (req_table_rule_ttl_read id rule clear) =
      pipeline_msg_handle_table_rule_ttl_read t table_data id rule clear
  handle_request t table_data (req_table_rule_time_read id rule) =
      pipeline_msg_handle_table_rule_time_read t table_data id rule
  handle_request t table_data req_unknown = (t, negative, nothing)

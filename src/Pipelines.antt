-- ===== src/Pipelines.antt =====
-- pipeline.c: the tables of a pipeline, `pipeline_table_create`. The pipeline is the one that
-- `pipeline_find` has found, and is an argument.
use rids.Prelude.{
  ℕ, ◌+◌, ◌-◌, ◌^◌, ◌%◌, Bool, true, false, ◌||◌, List, [], Option, none, some, leb, ltb, ◌==◌,
  if◌then◌else◌,
}
use rids.Registry.{RteStatus, success, negative, is_nonzero}
use rids.Registry.Resources.{acquire, release, free_handle}
use rids.Action.Hash.{has_crc}
use rids.Action.Table.{TableActionProfile, table_action_profile_find}
use rids.Rules.Check.{
  TableParams, acl_params, array_params, hash_params, lpm_params, stub_params, ProfileConfigs,
  PipelineTable, Tables,
}
pub mod Creates
pub mod Ports

-- struct table_hash_params; the mask is a pointer.
pub record HashParams : Type 0 where
  pub n_keys : ℕ
  pub key_offset : ℕ
  pub key_size : ℕ
  pub key_mask : ℕ
  pub n_buckets : ℕ
  pub extendable_bucket : Bool

-- The formats of ACL fields, of which two are moved by the offset of the IP header.
pub data AclFormat : Type 0 where
  format_ipv4 format_ipv6 : ℕ → AclFormat
  format_raw : AclFormat

-- rte_table_hash_*_ops
pub data HashOps : Type 0 where
  key8_ext key16_ext ext key8_lru key16_lru lru : HashOps

-- p.ops and p.arg_create. A hash table has rte_table_hash_crc_key* for the size of its keys, and the
-- seed 0; an LPM table has the entry_unique_size last.
pub data TableArgs : Type 0 where
  acl_table : ℕ → AclFormat → TableArgs
  array_table : ℕ → ℕ → TableArgs
  hash_table : HashOps → HashParams → TableArgs
  lpm_table lpm_ipv6_table : (n_rules offset entry_unique_size : ℕ) → TableArgs
  stub_table : TableArgs

-- TABLE_RULE_ACTION_SIZE_MAX
abbrev pub table_rule_action_size_max : ℕ
table_rule_action_size_max = 2048

-- DPDK's constants and calls: RTE_PIPELINE_TABLE_MAX, the size of a `struct rte_mbuf` with its
-- headroom, and that of an entry; rte_table_action_table_params_get gives the action_data_size; a
-- table is created under the pipeline's name and a number.
pub record TableApi (T : Type 0) : Type 0 where
  pub table_max : ℕ
  pub header_offset : ℕ
  pub entry_size : ℕ
  pub action_create : ℕ → ℕ → Option ℕ
  pub table_params_get : ℕ → ℕ × RteStatus
  pub table_create : T → ℕ → List ℕ → ℕ → TableArgs → Option ℕ → T × RteStatus

-- A pipeline, the state of DPDK, and its action objects that are live.
pub record Assembly (X T : Type 0) : Type 0 where
  pub p : ℕ
  pub cpu_id : ℕ
  pub tables : Tables HashParams X
  pub lower : T
  pub live : List ℕ

abbrev acl_format : ℕ → ℕ → AclFormat
acl_format offset ip_version =
    if ip_version == 1
    then format_ipv4 offset
    else if ip_version == 2
    then format_raw
    else format_ipv6 offset

abbrev hash_ops : Bool → ℕ → HashOps
hash_ops extendable key_size =
    if extendable
    then (if key_size == 8 then key8_ext else if key_size == 16 then key16_ext else ext)
    else (if key_size == 8 then key8_lru else if key_size == 16 then key16_lru else lru)

-- The switch on match_type; the entry_unique_size of an LPM table follows later. `none` is the
-- result -1.
unfoldable pub table_args : ℕ → TableParams HashParams → Option (ℕ → TableArgs)
table_args header_offset (acl_params n_rules ip_header_offset ip_version) =
    if n_rules == 0
    then none
    else some (λ size.
      acl_table n_rules
        (acl_format ((ip_header_offset + 2 ^ 32 - header_offset) % 2 ^ 32) ip_version))
table_args header_offset (array_params n_keys key_offset) =
    if n_keys == 0 then none else some (λ size. array_table n_keys key_offset)
table_args header_offset (hash_params h) =
    if h.n_keys == 0
    then none
    else if has_crc h.key_size
    then some (λ size. hash_table (hash_ops h.extendable_bucket h.key_size) h)
    else none
table_args header_offset (lpm_params n_rules key_offset key_size) =
    if n_rules == 0
    then none
    else if key_size == 4
    then some (lpm_table n_rules key_offset)
    else if key_size == 16
    then some (lpm_ipv6_table n_rules key_offset)
    else none
table_args header_offset stub_params = some (λ size. stub_table)

-- The profile, if a name is given; `none`: there is none of this name.
unfoldable pub profile_of :
    Option (List ℕ)
    → List (TableActionProfile ProfileConfigs)
    → Option (Option (TableActionProfile ProfileConfigs))
unfolding table_action_profile_find
profile_of none profiles = some none
profile_of (some name) profiles = elim (table_action_profile_find (some name) profiles) [
  | none ↦ none
  | some ap ↦ some (some ap)
]

module _ {T : Type 0} (api : TableApi T) where
  -- The action object of a profile, and its action_data_size; without a profile there is none.
  unfoldable pub create_action :
      ℕ → Option (TableActionProfile ProfileConfigs) → List ℕ → List ℕ × Option (Option ℕ × ℕ)
  create_action cpu_id none live = (live, some (none, 0))
  create_action cpu_id (some ap) live = elim (api.action_create ap.ap cpu_id) [
    | none ↦ (live, none)
    | some a ↦
        if is_nonzero (api.table_params_get a).1
          || ltb table_rule_action_size_max ((api.table_params_get a).0 + api.entry_size)
        then (release a (acquire a live), none)
        else (acquire a live, some (some a, (api.table_params_get a).0))
  ]

module _ {X T : Type 0} where
  -- The table behind the last one in use.
  abbrev pub add_table : PipelineTable HashParams X → Assembly X T → Assembly X T
  add_table table st =
      let n = st.tables.n_tables in
      record st {
        tables = record st.tables {
          n_tables = n + 1;
          table = λ i. if i == n then table else st.tables.table i;
        };
      }

  abbrev pub finish_table :
      TableParams HashParams
      → Option (TableActionProfile ProfileConfigs)
      → Option ℕ
      → T × RteStatus
      → Assembly X T
      → Assembly X T × RteStatus
  finish_table params ap action (lower, status) st =
      if is_nonzero status
      then (record st { lower = lower; live = free_handle action st.live }, negative)
      else (
        add_table
            (record {
              params = params;
              profile = ap;
              a = action;
              rule_table = record { rules = []; rule_default = none };
            })
            (record st { lower = lower }),
        success,
      )

module _ {X T : Type 0} (api : TableApi T) where
  -- From the creation of the action object on.
  unfoldable pub create_table :
      List ℕ
      → TableParams HashParams
      → Option (TableActionProfile ProfileConfigs)
      → (ℕ → TableArgs)
      → Assembly X T
      → Assembly X T × RteStatus
  unfolding create_action
  create_table name params ap args st =
      let (live, made) = create_action api st.cpu_id ap st.live in
      elim made [
        | none ↦ (record st { live = live }, negative)
        | some (action, size) ↦
            finish_table params ap action
              (api.table_create st.lower st.p name st.tables.n_tables (args (size + api.entry_size))
                action)
              (record st { live = live })
      ]

  -- `action_profile_name` of the parameters is the second name.
  unfoldable pub pipeline_table_create :
      List ℕ
      → Option (TableParams HashParams)
      → Option (List ℕ)
      → List (TableActionProfile ProfileConfigs)
      → Assembly X T
      → Assembly X T × RteStatus
  unfolding profile_of table_args create_table
  pipeline_table_create name none action_profile_name profiles st = (st, negative)
  pipeline_table_create name (some params) action_profile_name profiles st =
      if leb api.table_max st.tables.n_tables
      then (st, negative)
      else elim (profile_of action_profile_name profiles) [
        | none ↦ (st, negative)
        | some ap ↦ elim (table_args api.header_offset params) [
          | none ↦ (st, negative)
          | some args ↦ create_table name params ap args st
        ]
      ]

-- ===== src/Rules/Check.antt =====
-- thread.c: `match_check`, `action_check` and `action_default_check`, by which the main thread tests a
-- rule against the pipeline and the table it is meant for; pipeline.h: the tables of a pipeline.
pub mod Accepted
use rids.Prelude.{
  ℕ, ◌-◌, ◌^◌, ◌%◌, Bool, true, false, not, ◌&&◌, ◌||◌, List, [], ◌∷◌, Option, none, some, leb, ltb,
  ◌==◌, if◌then◌else◌, get_or,
}
use rids.Action.Table.{
  TableAction, fwd, lb, mtr, tm, encap, nat, ttl, stats, time, sym_crypto, tag, decap,
  TableActionProfile, registration_order,
}
use rids.Rules.{RuleTable}
use rids.Rules.Match.{
  Match, acl, acl_raw, array, hash, lpm, stub, AclMatch, AclRawMatch, Addresses, ipv4, ipv6,
  LpmAddress, lpm_ipv4, lpm_ipv6,
}

-- struct table_params by match_type; the fields of `hash` are passed on only.
pub data TableParams (H : Type 0) : Type 0 where
  acl_params : (n_rules ip_header_offset ip_version : ℕ) → TableParams H
  array_params : (n_keys key_offset : ℕ) → TableParams H
  hash_params : H → TableParams H
  lpm_params : (n_rules key_offset key_size : ℕ) → TableParams H
  stub_params : TableParams H

-- RTE_PIPELINE_ACTION_PORT and _TABLE, and the others of DPDK.
pub data FwdAction : Type 0 where
  to_port to_table elsewhere : FwdAction

-- struct table_rule_action: `action_mask` bit by bit, the fields that are tested, and the others.
pub record RuleAction (X : Type 0) : Type 0 where
  pub action_mask : TableAction → Bool
  pub fwd_action : FwdAction
  pub fwd_id : ℕ
  pub tc_mask : ℕ
  pub subport_id : ℕ
  pub pipe_id : ℕ
  pub encap_type : ℕ
  pub nat_ip_version : ℕ
  pub others : X

-- The fields of the configurations of a table action profile that are tested.
pub record ProfileConfigs : Type 0 where
  pub n_tc : ℕ
  pub n_subports_per_port : ℕ
  pub n_pipes_per_subport : ℕ
  pub encap_mask : ℕ → Bool
  pub ip_version : ℕ
  pub n_packets_enabled : Bool

-- struct table
pub record PipelineTable (H X : Type 0) : Type 0 where
  pub params : TableParams H
  pub profile : Option (TableActionProfile ProfileConfigs)
  pub a : Option ℕ
  pub rule_table : RuleTable Match (RuleAction X)

-- The tables of a struct pipeline, of which `n_tables` are in use, and its number of output ports.
pub record Tables (H X : Type 0) : Type 0 where
  pub n_ports_out : ℕ
  pub n_tables : ℕ
  pub table : ℕ → PipelineTable H X

-- The depths of an ACL match that are tested. A raw match is read as `struct table_rule_match_acl`,
-- whose sa_depth and da_depth are then the words 8 and 9 of `origin`.
abbrev pub depths_fit : ℕ → ℕ → ℕ → Bool
depths_fit sa_depth da_depth bound = leb sa_depth bound && leb da_depth bound

abbrev pub acl_check : ℕ → Addresses → ℕ → ℕ → Bool
acl_check ip_version (ipv4 sa da) sa_depth da_depth =
    not (ip_version == 0) && depths_fit sa_depth da_depth 32
acl_check ip_version (ipv6 sa da) sa_depth da_depth =
    (ip_version == 0) && depths_fit sa_depth da_depth 128

abbrev lpm_check : ℕ → LpmAddress → ℕ → Bool
lpm_check key_size (lpm_ipv4 a) depth = (key_size == 4) && leb depth 32
lpm_check key_size (lpm_ipv6 a) depth = (key_size == 16) && leb depth 128

-- The test of a match against the parameters of its table: the types first, then by type.
abbrev pub params_check : {H : Type 0} → TableParams H → Match → Bool
params_check (acl_params n_rules offset ip_version) (acl m) =
    acl_check ip_version m.addresses m.sa_depth m.da_depth
params_check (acl_params n_rules offset ip_version) (acl_raw m) =
    not (ip_version == 0) && depths_fit (get_or m.origin 8 0) (get_or m.origin 9 0) 32
params_check (array_params n_keys offset) (array pos) = true
params_check (hash_params h) (hash key) = true
params_check (lpm_params n_rules offset key_size) (lpm address depth) =
    lpm_check key_size address depth
params_check _ _ = false

abbrev pub same_mask : List TableAction → (TableAction → Bool) → (TableAction → Bool) → Bool
same_mask [] f g = true
same_mask (a ∷ rest) f g = (if f a then g a else not (g a)) && same_mask rest f g

abbrev pub profile_check : {X : Type 0} → RuleAction X → ProfileConfigs → Bool
profile_check action configs =
    (not (action.action_mask mtr) || action.tc_mask == (2 ^ configs.n_tc - 1) % 2 ^ 32)
    && (not (action.action_mask tm)
        || (ltb action.subport_id configs.n_subports_per_port
            && ltb action.pipe_id configs.n_pipes_per_subport))
    && (not (action.action_mask encap) || configs.encap_mask action.encap_type)
    && (not (action.action_mask nat)
        || (if action.nat_ip_version == 0
            then configs.ip_version == 0
            else not (configs.ip_version == 0)))

abbrev pub only_fwd : TableAction → Bool
only_fwd fwd = true
only_fwd _ = false

module _ {H X : Type 0} where
  -- `true` is the result 0.
  unfoldable pub match_check : Match → Tables H X → ℕ → Bool
  match_check match p table_id =
      ltb table_id p.n_tables && params_check (p.table table_id).params match

  abbrev pub fwd_target : Tables H X → FwdAction → ℕ → Bool
  fwd_target p to_port id = ltb id p.n_ports_out
  fwd_target p to_table id = ltb id p.n_tables
  fwd_target p elsewhere id = true

  abbrev pub fwd_check : RuleAction X → Tables H X → Bool
  fwd_check action p = fwd_target p action.fwd_action action.fwd_id

  -- `some true` is the result 0; `none`: a table that was created without a profile of actions is
  -- read through its null pointer.
  unfoldable pub action_check : RuleAction X → Tables H X → ℕ → Option Bool
  action_check action p table_id =
      if ltb table_id p.n_tables
      then elim (p.table table_id).profile [
        | none ↦ none
        | some ap ↦ some (
            same_mask registration_order action.action_mask ap.params.action_mask
            && (not (action.action_mask fwd) || fwd_check action p)
            && profile_check action ap.params.other_configs)
      ]
      else some false

  unfoldable pub action_default_check : RuleAction X → Tables H X → ℕ → Bool
  action_default_check action p table_id =
      same_mask registration_order action.action_mask only_fwd
      && ltb table_id p.n_tables
      && (not (action.action_mask fwd) || fwd_check action p)

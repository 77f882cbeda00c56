-- ===== src/Requests/Transparent.antt =====
-- A running pipeline answers as a stopped one.
use rids.Prelude.{
  ℕ, ◌<◌, ◌≡◌, refl, ap, Bool, true, false, not, ◌&&◌, Option, none, some, leb, ltb, arith,
  Bool-cases, Option-cases, inl, inr,
}
use rids.Registry.{RteStatus}
use rids.Rules.Match.{Match}
use rids.Rules.Check.{params_check, match_check}
use rids.Requests.{Payload, RequestApi, handle_request}
use rids.Requests.Calls.{
  Target, Platform, pipeline_port_in_stats_read, pipeline_port_in_enable, pipeline_port_in_disable,
  pipeline_port_out_stats_read, pipeline_table_stats_read, pipeline_table_mtr_profile_add,
  pipeline_table_mtr_profile_delete, pipeline_table_dscp_table_update, rule_in,
  pipeline_table_rule_stats_read, pipeline_table_rule_time_read, pipeline_table_rule_mtr_read,
  pipeline_table_rule_ttl_read,
}

-- The calls with their arguments.
pub data Call (M D : Type 0) : Type 0 where
  port_in_stats port_out_stats table_stats : (id : ℕ) → (clear : Bool) → Call M D
  port_in_enable port_in_disable : (id : ℕ) → Call M D
  mtr_profile_add : (id meter_profile_id : ℕ) → Option M → Call M D
  mtr_profile_delete : (id meter_profile_id : ℕ) → Call M D
  dscp_update : (id dscp_mask : ℕ) → Option D → Call M D
  rule_stats rule_mtr rule_ttl : (id : ℕ) → Option Match → (clear : Bool) → Call M D
  rule_time : (id : ℕ) → Option Match → Call M D

module _ {S M D T H X : Type 0} (api : RequestApi S M D T) where
  -- `none`: a null pointer is read.
  unfoldable pub perform :
      Platform → Target H X → Call M D → T → Option (T × RteStatus × Option (Payload S))
  perform env p (port_in_stats id clear) t = some (pipeline_port_in_stats_read api env p id clear t)
  perform env p (port_out_stats id clear) t =
      some (pipeline_port_out_stats_read api env p id clear t)
  perform env p (table_stats id clear) t = some (pipeline_table_stats_read api env p id clear t)
  perform env p (port_in_enable id) t = some (pipeline_port_in_enable api env p id t)
  perform env p (port_in_disable id) t = some (pipeline_port_in_disable api env p id t)
  perform env p (mtr_profile_add id m profile) t =
      some (pipeline_table_mtr_profile_add api env p id m profile t)
  perform env p (mtr_profile_delete id m) t =
      some (pipeline_table_mtr_profile_delete api env p id m t)
  perform env p (dscp_update id mask table) t =
      some (pipeline_table_dscp_table_update api env p id mask table t)
  perform env p (rule_stats id match clear) t =
      some (pipeline_table_rule_stats_read api env p id match clear t)
  perform env p (rule_mtr id match clear) t =
      pipeline_table_rule_mtr_read api env p id match clear t
  perform env p (rule_ttl id match clear) t =
      pipeline_table_rule_ttl_read api env p id match clear t
  perform env p (rule_time id match) t = some (pipeline_table_rule_time_read api env p id match t)

abbrev pub by_request : Platform → Platform
by_request env = record env { running = true; msg_alloc = true }

abbrev pub by_itself : Platform → Platform
by_itself env = record env { running = false }

module _ {S M D T H X : Type 0} (api : RequestApi S M D T) where
  module _ (env : Platform) (p : Target H X)
      (knows : (i : ℕ) → i < p.tables.n_tables → env.table_data i ≡ (p.tables.table i).a)
      (t : T) where
    mtr_profile_add_eq :
        (id m : ℕ) (profile : Option M)
        → pipeline_table_mtr_profile_add api (by_request env) p id m profile t
          ≡ pipeline_table_mtr_profile_add api (by_itself env) p id m profile t
    unfolding pipeline_table_mtr_profile_add handle_request
    mtr_profile_add_eq id m none = refl
    mtr_profile_add_eq id m (some profile) = elim (Bool-cases (leb p.tables.n_tables id)) [
      | inl e ↦ rw e refl
      | inr e ↦ rw (e, knows id (ground arith)) refl
    ]

    mtr_profile_delete_eq :
        (id m : ℕ)
        → pipeline_table_mtr_profile_delete api (by_request env) p id m t
          ≡ pipeline_table_mtr_profile_delete api (by_itself env) p id m t
    unfolding pipeline_table_mtr_profile_delete handle_request
    mtr_profile_delete_eq id m = elim (Bool-cases (leb p.tables.n_tables id)) [
      | inl e ↦ rw e refl
      | inr e ↦ rw (e, knows id (ground arith)) refl
    ]

    dscp_update_eq :
        (id mask : ℕ) (table : Option D)
        → pipeline_table_dscp_table_update api (by_request env) p id mask table t
          ≡ pipeline_table_dscp_table_update api (by_itself env) p id mask table t
    unfolding pipeline_table_dscp_table_update handle_request
    dscp_update_eq id mask none = refl
    dscp_update_eq id mask (some table) = elim (Bool-cases (leb p.tables.n_tables id)) [
      | inl e ↦ rw e refl
      | inr e ↦ rw (e, knows id (ground arith)) refl
    ]

    known :
        (id : ℕ) (match : Match)
        → match_check match p.tables id ≡ true
        → env.table_data id ≡ (p.tables.table id).a
    unfolding match_check
    known id match e = knows id (inside (params_check (p.tables.table id).params match) e)
      where
        inside : (b : Bool) → (ltb id p.tables.n_tables && b) ≡ true → id < p.tables.n_tables
        inside b h = ground arith

    rule_stats_eq :
        (id : ℕ) (match : Option Match) (clear : Bool)
        → pipeline_table_rule_stats_read api (by_request env) p id match clear t
          ≡ pipeline_table_rule_stats_read api (by_itself env) p id match clear t
    unfolding pipeline_table_rule_stats_read handle_request
    rule_stats_eq id none clear = refl
    rule_stats_eq id (some match) clear = elim (Bool-cases (match_check match p.tables id)) [
      | inr e ↦ rw (e, pipeline_table_rule_stats_read) refl
      | inl e ↦ elim (Option-cases (rule_in api p id match)) [
        | inl e' ↦ rw (e, e', pipeline_table_rule_stats_read) refl
        | inr (rule, e') ↦ rw (e, e', known id match e, pipeline_table_rule_stats_read) refl
      ]
    ]

    rule_time_eq :
        (id : ℕ) (match : Option Match)
        → pipeline_table_rule_time_read api (by_request env) p id match t
          ≡ pipeline_table_rule_time_read api (by_itself env) p id match t
    unfolding pipeline_table_rule_time_read handle_request
    rule_time_eq id none = refl
    rule_time_eq id (some match) = elim (Bool-cases (match_check match p.tables id)) [
      | inr e ↦ rw (e, pipeline_table_rule_time_read) refl
      | inl e ↦ elim (Option-cases (rule_in api p id match)) [
        | inl e' ↦ rw (e, e', pipeline_table_rule_time_read) refl
        | inr (rule, e') ↦ rw (e, e', known id match e, pipeline_table_rule_time_read) refl
      ]
    ]

    rule_mtr_eq :
        (id : ℕ) (match : Option Match) (clear : Bool)
        → pipeline_table_rule_mtr_read api (by_request env) p id match clear t
          ≡ pipeline_table_rule_mtr_read api (by_itself env) p id match clear t
    unfolding pipeline_table_rule_mtr_read handle_request
    rule_mtr_eq id none clear = refl
    rule_mtr_eq id (some match) clear = elim (Bool-cases (match_check match p.tables id)) [
      | inr e ↦ rw (e, pipeline_table_rule_mtr_read) refl
      | inl e ↦ elim (Option-cases (p.tables.table id).profile) [
        | inl q ↦ rw (e, q, pipeline_table_rule_mtr_read) refl
        | inr (found, q) ↦ elim (Option-cases (rule_in api p id match)) [
          | inl e' ↦ rw (e, q, e', pipeline_table_rule_mtr_read) refl
          | inr (rule, e') ↦ rw (e, q, e', known id match e, pipeline_table_rule_mtr_read) refl
        ]
      ]
    ]

    rule_ttl_eq :
        (id : ℕ) (match : Option Match) (clear : Bool)
        → pipeline_table_rule_ttl_read api (by_request env) p id match clear t
          ≡ pipeline_table_rule_ttl_read api (by_itself env) p id match clear t
    unfolding pipeline_table_rule_ttl_read handle_request
    rule_ttl_eq id none clear = refl
    rule_ttl_eq id (some match) clear = elim (Bool-cases (match_check match p.tables id)) [
      | inr e ↦ rw (e, pipeline_table_rule_ttl_read) refl
      | inl e ↦ elim (Option-cases (p.tables.table id).profile) [
        | inl q ↦ rw (e, q, pipeline_table_rule_ttl_read) refl
        | inr (found, q) ↦ elim (Bool-cases (not found.params.other_configs.n_packets_enabled)) [
          | inl n ↦ rw (e, q, n, pipeline_table_rule_ttl_read) refl
          | inr n ↦ elim (Option-cases (rule_in api p id match)) [
            | inl e' ↦ rw (e, q, n, e', pipeline_table_rule_ttl_read) refl
            | inr (rule, e') ↦ rw (e, q, n, e', known id match e, pipeline_table_rule_ttl_read) refl
          ]
        ]
      ]
    ]

  -- A call that reads counters or passes a setting on has the same effect, status and output by a request
  -- to the running thread as by the main thread itself, also where it is refused, if the request
  -- can be allocated and the thread knows the action objects of all tables of the pipeline.
  pub perform-by_request :
      (env : Platform) (p : Target H X)
      → ((i : ℕ) → i < p.tables.n_tables → env.table_data i ≡ (p.tables.table i).a)
      → (t : T) (c : Call M D)
      → perform api (by_request env) p c t ≡ perform api (by_itself env) p c t
  unfolding perform handle_request pipeline_port_in_stats_read pipeline_port_in_enable
      pipeline_port_in_disable pipeline_port_out_stats_read pipeline_table_stats_read
  perform-by_request env p knows t (port_in_stats id clear) = refl
  perform-by_request env p knows t (port_in_enable id) = refl
  perform-by_request env p knows t (port_in_disable id) = refl
  perform-by_request env p knows t (port_out_stats id clear) = refl
  perform-by_request env p knows t (table_stats id clear) = refl
  perform-by_request env p knows t (mtr_profile_add id m profile) =
      ap some (mtr_profile_add_eq env p knows t id m profile)
  perform-by_request env p knows t (mtr_profile_delete id m) =
      ap some (mtr_profile_delete_eq env p knows t id m)
  perform-by_request env p knows t (dscp_update id mask table) =
      ap some (dscp_update_eq env p knows t id mask table)
  perform-by_request env p knows t (rule_stats id match clear) =
      ap some (rule_stats_eq env p knows t id match clear)
  perform-by_request env p knows t (rule_time id match) =
      ap some (rule_time_eq env p knows t id match)
  perform-by_request env p knows t (rule_mtr id match clear) =
      rule_mtr_eq env p knows t id match clear
  perform-by_request env p knows t (rule_ttl id match clear) =
      rule_ttl_eq env p knows t id match clear

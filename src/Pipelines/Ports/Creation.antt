-- ===== src/Pipelines/Ports/Creation.antt =====
-- pipeline.c: `pipeline_port_in_create`, `pipeline_port_out_create` and
-- `pipeline_port_in_connect_to_table`, from the device on. A pipeline's name has been looked up.
use rids.Prelude.{ℕ, ◌+◌, Bool, false, ◌||◌, List, Option, none, some, leb, ◌==◌, if◌then◌else◌}
use rids.Registry.{RteStatus, success, negative, is_nonzero}
use rids.Registry.Resources.{acquire, release, free_handle}
use rids.Action.PortIn.{PortInActionProfile, port_in_action_profile_find}
use rids.Pipelines.Ports.{DeviceLists, PortInParams, Reader, reader, PortOutParams, Writer, writer}

-- struct port_in, of a profile of some configuration.
pub record PortIn (C : Type 0) : Type 0 where
  pub params : PortInParams
  pub profile : Option (PortInActionProfile C)
  pub a : Option ℕ

-- The ports of a pipeline, the state of DPDK, and its action objects of ports that are live.
pub record Ports (C T : Type 0) : Type 0 where
  pub p : ℕ
  pub cpu_id : ℕ
  pub n_ports_in : ℕ
  pub port_in : ℕ → PortIn C
  pub n_ports_out : ℕ
  pub n_tables : ℕ
  pub lower : T
  pub live : List ℕ

-- DPDK's constant RTE_PORT_IN_BURST_SIZE_MAX and calls. A port that is created has an id; a reader is
-- created with its burst size and its action object.
pub record PortApi (T : Type 0) : Type 0 where
  pub burst_max : ℕ
  pub action_create : ℕ → ℕ → Option ℕ
  pub params_get : ℕ → RteStatus
  pub port_in_create : T → ℕ → Reader → ℕ → Option ℕ → T × RteStatus × ℕ
  pub port_in_enable : T → ℕ → ℕ → T
  pub port_out_create : T → ℕ → Writer → T × RteStatus
  pub connect_to_table : T → ℕ → ℕ → ℕ → T × RteStatus

abbrev pub burst_fits : ℕ → ℕ → Bool
burst_fits burst_max burst_size = if burst_size == 0 then false else leb burst_size burst_max

module _ {C : Type 0} where
  -- The profile, if a name is given; `none`: there is none of this name.
  unfoldable pub port_profile :
      Option (List ℕ) → List (PortInActionProfile C) → Option (Option (PortInActionProfile C))
  unfolding port_in_action_profile_find
  port_profile none profiles = some none
  port_profile (some name) profiles = elim (port_in_action_profile_find (some name) profiles) [
    | none ↦ none
    | some found ↦ some (some found)
  ]

module _ {C T : Type 0} (api : PortApi T) where
  -- The action object of a profile; without a profile there is none.
  unfoldable pub create_port_action :
      ℕ → Option (PortInActionProfile C) → List ℕ → List ℕ × Option (Option ℕ)
  create_port_action cpu_id none live = (live, some none)
  create_port_action cpu_id (some found) live = elim (api.action_create found.ap cpu_id) [
    | none ↦ (live, none)
    | some a ↦
        if is_nonzero (api.params_get a)
        then (release a (acquire a live), none)
        else (acquire a live, some (some a))
  ]

  abbrev pub finish_port_in :
      PortInParams
      → Option (PortInActionProfile C)
      → Option ℕ
      → Bool
      → T × RteStatus × ℕ
      → Ports C T
      → Ports C T × RteStatus
  finish_port_in params found action enabled (lower, status, port_id) st =
      if is_nonzero status
      then (record st { lower = lower; live = free_handle action st.live }, negative)
      else (
        record st {
          lower = if enabled then api.port_in_enable lower st.p port_id else lower;
          port_in = λ i.
              if i == st.n_ports_in
              then record { params = params; profile = found; a = action }
              else st.port_in i;
          n_ports_in = st.n_ports_in + 1;
        },
        success,
      )

  -- From the creation of the action object on.
  unfoldable pub create_port_in :
      PortInParams
      → Option (PortInActionProfile C)
      → Reader
      → Bool
      → Ports C T
      → Ports C T × RteStatus
  unfolding create_port_action
  create_port_in params found reader enabled st =
      let (live, made) = create_port_action st.cpu_id found st.live in
      elim made [
        | none ↦ (record st { live = live }, negative)
        | some action ↦
            finish_port_in params found action enabled
              (api.port_in_create st.lower st.p reader params.burst_size action)
              (record st { live = live })
      ]

  unfoldable pub pipeline_port_in_create :
      DeviceLists
      → List (PortInActionProfile C)
      → Option PortInParams
      → Bool
      → Ports C T
      → Ports C T × RteStatus
  unfolding port_profile reader create_port_in
  pipeline_port_in_create d profiles none enabled st = (st, negative)
  pipeline_port_in_create d profiles (some params) enabled st =
      if burst_fits api.burst_max params.burst_size
      then elim (port_profile params.action_profile_name profiles) [
        | none ↦ (st, negative)
        | some found ↦ elim (reader d params params.type) [
          | none ↦ (st, negative)
          | some r ↦ create_port_in params found r enabled st
        ]
      ]
      else (st, negative)

  unfoldable pub pipeline_port_in_connect_to_table : ℕ → ℕ → Ports C T → Ports C T × RteStatus
  pipeline_port_in_connect_to_table port_id table_id st =
      if leb st.n_ports_in port_id || leb st.n_tables table_id
      then (st, negative)
      else let (lower, status) = api.connect_to_table st.lower st.p port_id table_id in
        (record st { lower = lower }, status)

  abbrev pub finish_port_out : T × RteStatus → Ports C T → Ports C T × RteStatus
  finish_port_out (lower, status) st =
      if is_nonzero status
      then (record st { lower = lower }, negative)
      else (record st { lower = lower; n_ports_out = st.n_ports_out + 1 }, success)

  unfoldable pub pipeline_port_out_create :
      DeviceLists → Option PortOutParams → Ports C T → Ports C T × RteStatus
  unfolding writer
  pipeline_port_out_create d none st = (st, negative)
  pipeline_port_out_create d (some params) st =
      if burst_fits api.burst_max params.burst_size
      then elim (writer d params params.type) [
        | none ↦ (st, negative)
        | some w ↦ finish_port_out (api.port_out_create st.lower st.p w) st
      ]
      else (st, negative)

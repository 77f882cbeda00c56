-- ===== src/Tmgr.antt =====
-- processing/dpdk_pipeline/tmgr.c and tmgr.h: traffic manager ports over the scheduler of DPDK.
pub mod Creates
pub mod Profiles
pub mod Pipes
use rids.Prelude.{
  ℕ, zero, suc, ◌+◌, ◌-◌, Bool, true, false, not, ◌&&◌, ◌||◌, List, [], ◌∷◌, ◌++◌, Option, none,
  some, ltb, leb, ◌==◌, if◌then◌else◌, length, Outcome, ok, err, failure,
}
use rids.Registry.{RteStatus, success, is_some, is_nonzero, stored_name, find}
use rids.Registry.Resources.{acquire, release}
use rids.Registry.Creation.{Objects, add_node, empty}

pub record TmgrPortParams : Type 0 where
  pub rate : ℕ
  pub n_subports_per_port : ℕ
  pub n_pipes_per_subport : ℕ
  pub frame_overhead : ℕ
  pub mtu : ℕ
  pub cpu_id : ℕ

pub record TmgrPort : Type 0 where
  pub name : List ℕ
  pub s : ℕ
  pub n_subports_per_port : ℕ
  pub n_pipes_per_subport : ℕ

-- The file's variables: the list of ports, and of the two arrays of profiles the part that is
-- filled, whose length is the counter of the array.
pub record Tmgr (S P : Type 0) : Type 0 where
  pub ports : Objects TmgrPort
  pub subport_profile : List S
  pub pipe_profile : List P

abbrev pub tmgr_init : {S P : Type 0} → Tmgr S P
tmgr_init = record { ports = empty; subport_profile = []; pipe_profile = [] }

unfoldable pub tmgr_port_find : Option (List ℕ) → List TmgrPort → Option TmgrPort
unfolding find
tmgr_port_find = find (λ port. port.name)

-- TMGR_SUBPORT_PROFILE_MAX and TMGR_PIPE_PROFILE_MAX: the sizes of the arrays
abbrev pub subport_profile_max : ℕ
subport_profile_max = 256

abbrev pub pipe_profile_max : ℕ
pipe_profile_max = 256

-- `none`: the profile is written behind the end of the array. The functions do not test for it.
module _ {S P : Type 0} where
  pub tmgr_subport_profile_add : Option S → Tmgr S P → Option (Tmgr S P × Outcome (Unit {0}))
  tmgr_subport_profile_add none st = some (st, err failure)
  tmgr_subport_profile_add (some params) st =
      if ltb (length st.subport_profile) subport_profile_max
      then some (record st { subport_profile = st.subport_profile ++ params ∷ [] }, ok tt)
      else none

  pub tmgr_pipe_profile_add : Option P → Tmgr S P → Option (Tmgr S P × Outcome (Unit {0}))
  tmgr_pipe_profile_add none st = some (st, err failure)
  tmgr_pipe_profile_add (some p) st =
      if ltb (length st.pipe_profile) pipe_profile_max
      then some (record st { pipe_profile = st.pipe_profile ++ p ∷ [] }, ok tt)
      else none

-- What a port is created with besides the constants: the name, the parameters, and the subport
-- profiles, of which n_subport_profiles are filled and there is room for n_max_subport_profiles.
pub record SchedPortParams (S : Type 0) : Type 0 where
  pub name : List ℕ
  pub params : TmgrPortParams
  pub subport_profiles : List S
  pub n_max_subport_profiles : ℕ

-- subport_params: the default parameters with the pipe profiles, of which n_pipe_profiles are filled,
-- and n_pipes_per_subport_enabled.
pub record SubportParams (P : Type 0) : Type 0 where
  pub pipe_profiles : List P
  pub n_pipes_per_subport_enabled : ℕ

-- The scheduler: a port with these parameters, a subport of a port, with parameters or without (NULL),
-- and its profile, and a pipe of a subport with a profile; and RTE_MAX_NUMA_NODES.
pub record Sched (S P : Type 0) : Type 0 where
  pub max_numa_nodes : ℕ
  pub port_config : SchedPortParams S → Option ℕ
  pub subport_config : ℕ → ℕ → Option (SubportParams P) → ℕ → RteStatus
  pub pipe_config : ℕ → ℕ → ℕ → ℕ → RteStatus

-- The inner loop of `tmgr_port_create` from pipe `j`; `false`: a call failed.
pub configure_pipes : {S P : Type 0} → ℕ → ℕ → Sched S P → ℕ → ℕ → Bool
configure_pipes zero j sched s i = true
configure_pipes (suc rounds) j sched s i = elim (is_nonzero (sched.pipe_config s i j 0)) [
  | true ↦ false
  | false ↦ configure_pipes rounds (j + 1) sched s i
]

-- The outer loop, from subport `i`.
pub configure_subports : {S P : Type 0} → ℕ → ℕ → Sched S P → ℕ → SubportParams P → ℕ → Bool
unfolding configure_pipes
configure_subports zero i sched s config n_pipes = true
configure_subports (suc rounds) i sched s config n_pipes =
    elim (is_nonzero (sched.subport_config s i (some config) 0)) [
      | true ↦ false
      | false ↦ elim (configure_pipes n_pipes 0 sched s i) [
        | false ↦ false
        | true ↦ configure_subports rounds (i + 1) sched s config n_pipes
      ]
    ]

abbrev pub sched_subport_params : {P : Type 0} → List P → TmgrPortParams → SubportParams P
sched_subport_params pipe_profile params = record {
  pipe_profiles = pipe_profile;
  n_pipes_per_subport_enabled = params.n_pipes_per_subport;
}

pub configured_port :
    {S P : Type 0}
    → Sched S P
    → Bool
    → List P
    → List ℕ
    → TmgrPortParams
    → ℕ
    → Objects TmgrPort
    → Objects TmgrPort × Option TmgrPort
unfolding configure_subports release add_node
configured_port sched calloc pipe_profile name params s ports =
    if configure_subports params.n_subports_per_port 0 sched s
      (sched_subport_params pipe_profile params) params.n_pipes_per_subport
    then add_node calloc s
        (record {
          name = stored_name name;
          s = s;
          n_subports_per_port = params.n_subports_per_port;
          n_pipes_per_subport = params.n_pipes_per_subport;
        })
        ports
    else (record ports { live = release s (acquire s ports.live) }, none)

module _ {S P : Type 0} where
  abbrev with_ports : Tmgr S P → Objects TmgrPort × Option TmgrPort → Tmgr S P × Option TmgrPort
  with_ports st (ports, port) = (record st { ports = ports }, port)

  -- The conditions under which `tmgr_port_create` refuses.
  abbrev pub refuses : Sched S P → List ℕ → TmgrPortParams → Tmgr S P → Bool
  refuses sched name params st =
      is_some (tmgr_port_find (some name) st.ports.nodes)
      || params.n_subports_per_port == 0
      || params.n_pipes_per_subport == 0
      || leb sched.max_numa_nodes params.cpu_id
      || length st.subport_profile == 0
      || length st.pipe_profile == 0

  abbrev pub sched_port_params : List ℕ → TmgrPortParams → Tmgr S P → SchedPortParams S
  sched_port_params name params st = record {
    name = name;
    params = params;
    subport_profiles = st.subport_profile;
    n_max_subport_profiles = subport_profile_max;
  }

  pub tmgr_port_create :
      Sched S P
      → Bool
      → Option (List ℕ)
      → Option TmgrPortParams
      → Tmgr S P
      → Tmgr S P × Option TmgrPort
  unfolding tmgr_port_find configured_port
  tmgr_port_create sched calloc none params st = (st, none)
  tmgr_port_create sched calloc (some name) none st = (st, none)
  tmgr_port_create sched calloc (some name) (some params) st =
      if refuses sched name params st
      then (st, none)
      else elim (sched.port_config (sched_port_params name params st)) [
        | none ↦ (st, none)
        | some s ↦
            with_ports st (configured_port sched calloc st.pipe_profile name params s st.ports)
      ]

-- A call of `rte_sched_pipe_config`.
pub record PipeCall : Type 0 where
  pub s : ℕ
  pub subport_id : ℕ
  pub pipe_id : ℕ
  pub profile_id : ℕ

-- The loop of `tmgr_pipe_config` from pipe `i`: the calls made, and the status returned.
pub configure_range : {S P : Type 0} → ℕ → ℕ → Sched S P → ℕ → ℕ → ℕ → List PipeCall × RteStatus
configure_range zero i sched s subport profile = ([], success)
configure_range (suc rounds) i sched s subport profile =
    let call : PipeCall = record {
      s = s;
      subport_id = subport;
      pipe_id = i;
      profile_id = profile;
    } in
    let status = sched.pipe_config s subport i profile in
    let (calls, last) = configure_range rounds (i + 1) sched s subport profile in
    if is_nonzero status then (call ∷ [], status) else (call ∷ calls, last)

module _ {S P : Type 0} where
  pub tmgr_subport_config : Sched S P → Option (List ℕ) → ℕ → ℕ → Tmgr S P → Outcome RteStatus
  unfolding tmgr_port_find
  tmgr_subport_config sched port_name subport_id profile_id st =
      elim (tmgr_port_find port_name st.ports.nodes) [
        | none ↦ err failure
        | some port ↦
            if leb port.n_subports_per_port subport_id || leb (length st.subport_profile) profile_id
            then err failure
            else ok (sched.subport_config port.s subport_id none profile_id)
      ]

  -- `tmgr_pipe_config` with its port found: the calls made, and the status; `err failure` is the -1
  -- of the tests.
  pub pipe_config_at :
      Sched S P → TmgrPort → ℕ → ℕ → ℕ → ℕ → Tmgr S P → List PipeCall × Outcome RteStatus
  unfolding configure_range
  pipe_config_at sched port subport_id first last profile_id st =
      let (calls, status) =
        configure_range (last + 1 - first) first sched port.s subport_id profile_id in
      if leb port.n_subports_per_port subport_id
        || leb port.n_pipes_per_subport first
        || leb port.n_pipes_per_subport last
        || ltb last first
        || leb (length st.pipe_profile) profile_id
      then ([], err failure)
      else (calls, ok status)

  pub tmgr_pipe_config :
      Sched S P → Option (List ℕ) → ℕ → ℕ → ℕ → ℕ → Tmgr S P → List PipeCall × Outcome RteStatus
  unfolding tmgr_port_find pipe_config_at
  tmgr_pipe_config sched port_name subport_id first last profile_id st =
      elim (tmgr_port_find port_name st.ports.nodes) [
        | none ↦ ([], err failure)
        | some port ↦ pipe_config_at sched port subport_id first last profile_id st
      ]

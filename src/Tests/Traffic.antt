-- ===== src/Tests/Traffic.antt =====
-- The traffic manager with one port.
use rids.Prelude.{ℕ, ◌≡◌, ◌⊎◌, List, [], ◌∷◌, some, arith, true, err, failure}
use rids.Registry.{success}
use rids.Registry.Creation.{Creates}
use rids.Tmgr.{
  Tmgr, TmgrPort, TmgrPortParams, Sched, tmgr_port_create, tmgr_port_find, tmgr_pipe_config,
}
use rids.Tmgr.Creates.{port_name, port_handle, tmgr_port_create-Creates}
use rids.Tmgr.Profiles.{add_subport_profiles, add_subport_profiles_lem}
use rids.Tmgr.Pipes.{Configures, tmgr_pipe_config-Configures}

-- TM0
abbrev tm0 : List ℕ
tm0 = b'T' ∷ b'M' ∷ b'0' ∷ []

abbrev sched : Sched ℕ ℕ
sched = record {
  max_numa_nodes = 8;
  port_config = λ params. some 7;
  subport_config = λ s subport params profile. success;
  pipe_config = λ s subport pipe profile. success;
}

abbrev port_params : TmgrPortParams
port_params = record {
  rate = 1250000000;
  n_subports_per_port = 1;
  n_pipes_per_subport = 4096;
  frame_overhead = 24;
  mtu = 1522;
  cpu_id = 0;
}

-- One profile of each kind, and no port yet.
abbrev with_profiles : Tmgr ℕ ℕ
with_profiles = record {
  ports = record { nodes = []; live = [] };
  subport_profile = 1 ∷ [];
  pipe_profile = 2 ∷ [];
}

tmgr_port_create-Creates_example :
    let r = tmgr_port_create sched true (some tm0) (some port_params) with_profiles in
    Creates port_name port_handle (some tm0) with_profiles.ports (r.0.ports, r.1)
    × (r.0.subport_profile ≡ 1 ∷ [])
    × (r.0.pipe_profile ≡ 2 ∷ [])
tmgr_port_create-Creates_example =
    tmgr_port_create-Creates sched true (some tm0) (some port_params) with_profiles

add_subport_profiles_lem_example :
    add_subport_profiles (3 ∷ 4 ∷ []) with_profiles
    ≡ some (record with_profiles { subport_profile = 1 ∷ 3 ∷ 4 ∷ [] })
add_subport_profiles_lem_example = add_subport_profiles_lem (3 ∷ 4 ∷ []) with_profiles (omega arith)

-- The state with the port of `port_params`.
abbrev one_port : Tmgr ℕ ℕ
one_port = record with_profiles {
  ports = record {
    nodes = record { name = tm0; s = 7; n_subports_per_port = 1; n_pipes_per_subport = 4096 } ∷ [];
    live = 7 ∷ [];
  };
}

tmgr_pipe_config-Configures_example :
    (tmgr_pipe_config sched (some tm0) 0 2 4 0 one_port ≡ ([], err failure))
    ⊎ ((port : TmgrPort) × (tmgr_port_find (some tm0) one_port.ports.nodes ≡ some port)
        × Configures sched
            (some tm0)
            0
            2
            4
            0
            one_port
            port
            (tmgr_pipe_config sched (some tm0) 0 2 4 0 one_port))
tmgr_pipe_config-Configures_example = tmgr_pipe_config-Configures sched (some tm0) 0 2 4 0 one_port

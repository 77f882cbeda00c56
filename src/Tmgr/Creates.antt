-- ===== src/Tmgr/Creates.antt =====
-- Every branch of `tmgr_port_create`.
use rids.Prelude.{
  ℕ, ◌≡◌, refl, ap, Bool, false, List, Option, none, some, arith, Bool-cases, Option-cases, inl,
  inr,
}
use rids.Registry.{is_some, search_list}
use rids.Registry.Resources.{release-acquire}
use rids.Registry.Creation.{Objects, Creates, add_node-Creates}
use rids.Tmgr.{
  Tmgr, TmgrPort, TmgrPortParams, Sched, refuses, configure_subports, configured_port,
  sched_port_params, sched_subport_params, tmgr_port_create,
}

abbrev pub port_name : TmgrPort → List ℕ
port_name port = port.name

abbrev pub port_handle : TmgrPort → ℕ
port_handle port = port.s

configured_port-Creates :
    {S P : Type 0} (sched : Sched S P) (calloc : Bool) (profiles : List P) (name : List ℕ)
    (params : TmgrPortParams) (s : ℕ) (ports : Objects TmgrPort)
    → is_some (search_list port_name name ports.nodes) ≡ false
    → Creates port_name port_handle
        (some name)
        ports
        (configured_port sched calloc profiles name params s ports)
unfolding configured_port
configured_port-Creates sched calloc profiles name params s ports h =
    elim (Bool-cases (
      configure_subports params.n_subports_per_port 0 sched s (sched_subport_params profiles params)
        params.n_pipes_per_subport)) [
          | inl e ↦ rw e (add_node-Creates port_name port_handle calloc name _ ports h refl)
          | inr e ↦ rw e (
              ap (λ live. record { nodes = ports.nodes; live = live })
                (release-acquire s ports.live))
        ]

module _ {S P : Type 0} where
  -- Whatever the scheduler answers, `tmgr_port_create` either changes nothing, with the port of the
  -- scheduler freed again, or adds one port under a name that was not in use and with one live port
  -- of the scheduler; the profiles stay as they are.
  pub tmgr_port_create-Creates :
      (sched : Sched S P) (calloc : Bool) (name : Option (List ℕ)) (params : Option TmgrPortParams)
      (st : Tmgr S P)
      → let r = tmgr_port_create sched calloc name params st in
        Creates port_name port_handle name st.ports (r.0.ports, r.1)
        × (r.0.subport_profile ≡ st.subport_profile)
        × (r.0.pipe_profile ≡ st.pipe_profile)
  unfolding tmgr_port_create
  tmgr_port_create-Creates sched calloc none params st = (refl, refl, refl)
  tmgr_port_create-Creates sched calloc (some name) none st = (refl, refl, refl)
  tmgr_port_create-Creates sched calloc (some name) (some params) st =
      elim (Bool-cases (refuses sched name params st)) [
        | inl e ↦ rw e (refl, refl, refl)
        | inr e ↦ elim (Option-cases (sched.port_config (sched_port_params name params st))) [
          | inl e' ↦ rw (e, e') (refl, refl, refl)
          | inr (s, e') ↦
              rw (e, e')
                (
                  configured_port-Creates sched calloc st.pipe_profile name params s st.ports
                      (ground arith),
                  refl,
                  refl,
                )
        ]
      ]

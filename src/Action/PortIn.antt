-- ===== src/Action/PortIn.antt =====
-- action.c: the profiles of actions of input ports.
pub mod Creates
use rids.Prelude.{ℕ, Bool, true, false, not, ◌||◌, List, [], ◌∷◌, Option, none, some, if◌then◌else◌}
use rids.Registry.{RteStatus, is_some, is_nonzero, stored_name, find}
use rids.Registry.Resources.{acquire, release}
use rids.Registry.Creation.{Objects, add_node, empty}
use rids.Action.Hash.{LbConfig, choose_hash, register_actions}

-- RTE_PORT_IN_ACTION_*
pub data PortInAction : Type 0 where
  fltr lb : PortInAction

-- `action_mask` bit by bit, and the configurations: that of load balancing, and that of the filter.
pub record PortInActionProfileParams (C : Type 0) : Type 0 where
  pub action_mask : PortInAction → Bool
  pub lb_config : LbConfig
  pub fltr_config : C

pub record PortInActionProfile (C : Type 0) : Type 0 where
  pub name : List ℕ
  pub params : PortInActionProfileParams C
  pub ap : ℕ

abbrev pub port_in_action_profile_init : {C : Type 0} → Objects (PortInActionProfile C)
port_in_action_profile_init = empty

-- The calls of DPDK on profiles; a registration reads the configuration of its action.
pub record PortInActionApi (C : Type 0) : Type 0 where
  pub profile_create : Option ℕ
  pub action_register : ℕ → PortInActionProfileParams C → PortInAction → RteStatus
  pub freeze : ℕ → RteStatus

-- The order in which the actions are registered.
abbrev pub registration_order : List PortInAction
registration_order = fltr ∷ lb ∷ []

module _ {C : Type 0} where
  unfoldable pub port_in_action_profile_find :
      Option (List ℕ) → List (PortInActionProfile C) → Option (PortInActionProfile C)
  unfolding find
  port_in_action_profile_find = find (λ profile. profile.name)

  -- From the creation of the resource on, with the parameters as they are then.
  pub register_port_in_profile :
      PortInActionApi C
      → Bool
      → List ℕ
      → PortInActionProfileParams C
      → Objects (PortInActionProfile C)
      → Objects (PortInActionProfile C) × Option (PortInActionProfile C)
  unfolding add_node release
  register_port_in_profile api calloc name params st = elim api.profile_create [
    | none ↦ (st, none)
    | some ap ↦
        if not
            (register_actions params.action_mask (api.action_register ap params)
              registration_order).1
          || is_nonzero (api.freeze ap)
        then (record st { live = release ap (acquire ap st.live) }, none)
        else add_node calloc ap (record { name = stored_name name; params = params; ap = ap }) st
  ]

  pub port_in_action_profile_create :
      PortInActionApi C
      → Bool
      → Option (List ℕ)
      → Option (PortInActionProfileParams C)
      → Objects (PortInActionProfile C)
      → Objects (PortInActionProfile C) × Option (PortInActionProfile C)
  unfolding port_in_action_profile_find register_port_in_profile
  port_in_action_profile_create api calloc none params st = (st, none)
  port_in_action_profile_create api calloc (some name) none st = (st, none)
  port_in_action_profile_create api calloc (some name) (some params) st =
      if is_some (port_in_action_profile_find (some name) st.nodes)
      then (st, none)
      else elim (choose_hash (params.action_mask lb) params.lb_config) [
        | none ↦ (st, none)
        | some config ↦
            register_port_in_profile api calloc name (record params { lb_config = config }) st
      ]

-- ===== src/Action/Table.antt =====
-- action.c: the profiles of actions of tables.
pub mod Creates
use rids.Prelude.{ℕ, Bool, true, false, not, ◌||◌, List, [], ◌∷◌, Option, none, some, if◌then◌else◌}
use rids.Registry.{RteStatus, is_some, is_nonzero, stored_name, find}
use rids.Registry.Resources.{acquire, release}
use rids.Registry.Creation.{Objects, add_node, empty}
use rids.Action.Hash.{LbConfig, choose_hash, register_actions}

-- RTE_TABLE_ACTION_*
pub data TableAction : Type 0 where
  fwd lb mtr tm encap nat ttl stats time sym_crypto tag decap : TableAction

-- `action_mask` bit by bit, and the configurations: that of load balancing, and the others together.
pub record TableActionProfileParams (C : Type 0) : Type 0 where
  pub action_mask : TableAction → Bool
  pub lb_config : LbConfig
  pub other_configs : C

pub record TableActionProfile (C : Type 0) : Type 0 where
  pub name : List ℕ
  pub params : TableActionProfileParams C
  pub ap : ℕ

abbrev pub table_action_profile_init : {C : Type 0} → Objects (TableActionProfile C)
table_action_profile_init = empty

-- The calls of DPDK on profiles; a registration reads the configuration of its action.
pub record TableActionApi (C : Type 0) : Type 0 where
  pub profile_create : TableActionProfileParams C → Option ℕ
  pub action_register : ℕ → TableActionProfileParams C → TableAction → RteStatus
  pub freeze : ℕ → RteStatus

-- The order in which the actions are registered.
abbrev pub registration_order : List TableAction
registration_order =
    fwd ∷ lb ∷ mtr ∷ tm ∷ encap ∷ nat ∷ ttl ∷ stats ∷ time ∷ sym_crypto ∷ tag ∷ decap ∷ []

module _ {C : Type 0} where
  unfoldable pub table_action_profile_find :
      Option (List ℕ) → List (TableActionProfile C) → Option (TableActionProfile C)
  unfolding find
  table_action_profile_find = find (λ profile. profile.name)

  -- From the creation of the resource on, with the parameters as they are then.
  pub register_table_profile :
      TableActionApi C
      → Bool
      → List ℕ
      → TableActionProfileParams C
      → Objects (TableActionProfile C)
      → Objects (TableActionProfile C) × Option (TableActionProfile C)
  unfolding add_node release
  register_table_profile api calloc name params st = elim (api.profile_create params) [
    | none ↦ (st, none)
    | some ap ↦
        if not
            (register_actions params.action_mask (api.action_register ap params)
              registration_order).1
          || is_nonzero (api.freeze ap)
        then (record st { live = release ap (acquire ap st.live) }, none)
        else add_node calloc ap (record { name = stored_name name; params = params; ap = ap }) st
  ]

  pub table_action_profile_create :
      TableActionApi C
      → Bool
      → Option (List ℕ)
      → Option (TableActionProfileParams C)
      → Objects (TableActionProfile C)
      → Objects (TableActionProfile C) × Option (TableActionProfile C)
  unfolding table_action_profile_find register_table_profile
  table_action_profile_create api calloc none params st = (st, none)
  table_action_profile_create api calloc (some name) none st = (st, none)
  table_action_profile_create api calloc (some name) (some params) st =
      if is_some (table_action_profile_find (some name) st.nodes) || not (params.action_mask fwd)
      then (st, none)
      else elim (choose_hash (params.action_mask lb) params.lb_config) [
        | none ↦ (st, none)
        | some config ↦
            register_table_profile api calloc name (record params { lb_config = config }) st
      ]

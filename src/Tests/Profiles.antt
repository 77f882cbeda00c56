-- ===== src/Tests/Profiles.antt =====
-- Creations of profiles of actions.
use rids.Prelude.{ℕ, List, [], ◌∷◌, none, some, Bool, true, false}
use rids.Registry.{success}
use rids.Registry.Creation.{Creates}
use rids.Action.Table.{
  fwd, lb, TableAction, TableActionProfileParams, TableActionApi, table_action_profile_create,
  table_action_profile_init,
}
use rids.Action.Table.Creates.{
  profile_name, profile_handle, FromParams, table_action_profile_create-Creates,
}
use rids.Action.PortIn.{
  PortInActionProfileParams, PortInActionApi, port_in_action_profile_create,
  port_in_action_profile_init,
}
use rids.Action.PortIn.Creates.{
  profile_name as port_profile_name, profile_handle as port_profile_handle,
  FromParams as PortFromParams, port_in_action_profile_create-Creates,
}

-- AP0
abbrev ap0 : List ℕ
ap0 = b'A' ∷ b'P' ∷ b'0' ∷ []

abbrev forwards_and_balances : TableAction → Bool
forwards_and_balances fwd = true
forwards_and_balances lb = true
forwards_and_balances _ = false

abbrev table_params : TableActionProfileParams ℕ
table_params = record {
  action_mask = forwards_and_balances;
  lb_config = record { key_size = 16; f_hash = none; seed = 9 };
  other_configs = 0;
}

abbrev table_api : TableActionApi ℕ
table_api = record {
  profile_create = λ params. some 11;
  action_register = λ ap params a. success;
  freeze = λ ap. success;
}

table_action_profile_create-Creates_example :
    let r =
      table_action_profile_create table_api true
        (some ap0)
        (some table_params)
        table_action_profile_init in
    Creates
      (profile_name table_api)
      (profile_handle table_api)
      (some ap0)
      table_action_profile_init
      r
    × FromParams table_api (some table_params) r.1
table_action_profile_create-Creates_example =
    table_action_profile_create-Creates table_api true (some ap0) (some table_params)
      table_action_profile_init

abbrev port_in_params : PortInActionProfileParams ℕ
port_in_params = record {
  action_mask = λ a. true;
  lb_config = record { key_size = 16; f_hash = none; seed = 9 };
  fltr_config = 0;
}

abbrev port_in_api : PortInActionApi ℕ
port_in_api = record {
  profile_create = some 11;
  action_register = λ ap params a. success;
  freeze = λ ap. success;
}

port_in_action_profile_create-Creates_example :
    let r =
      port_in_action_profile_create port_in_api true
        (some ap0)
        (some port_in_params)
        port_in_action_profile_init in
    Creates
      (port_profile_name port_in_api)
      (port_profile_handle port_in_api)
      (some ap0)
      port_in_action_profile_init
      r
    × PortFromParams port_in_api (some port_in_params) r.1
port_in_action_profile_create-Creates_example =
    port_in_action_profile_create-Creates port_in_api true (some ap0) (some port_in_params)
      port_in_action_profile_init

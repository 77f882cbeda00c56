-- ===== src/Tests/Pipelines.antt =====
-- A table and two ports of a new pipeline.
use rids.Prelude.{ℕ, ◌+◌, true, [], ◌∷◌, none, some}
use rids.Registry.{success}
use rids.Rules.Check.{array_params, PipelineTable}
use rids.Pipelines.{HashParams, TableApi, Assembly, pipeline_table_create}
use rids.Pipelines.Creates.{CreatesTable, pipeline_table_create-CreatesTable}
use rids.Pipelines.Ports.{DeviceLists, PortInParams, in_rxq, PortOutParams, out_txq}
use rids.Pipelines.Ports.Creation.{PortIn, Ports, PortApi, pipeline_port_in_create}
use rids.Pipelines.Ports.Inputs.{CreatesPortIn, pipeline_port_in_create-CreatesPortIn}

-- DPDK counts its calls.
abbrev tables_api : TableApi ℕ
tables_api = record {
  table_max = 64;
  header_offset = 256;
  entry_size = 8;
  action_create = λ ap cpu_id. some (ap + 1);
  table_params_get = λ a. (16, success);
  table_create = λ t p name n args action. (t + 1, success);
}

abbrev no_table : PipelineTable HashParams ℕ
no_table = record {
  params = array_params 0 0;
  profile = none;
  a = none;
  rule_table = record { rules = []; rule_default = none };
}

abbrev no_tables : Assembly ℕ ℕ
no_tables = record {
  p = 1;
  cpu_id = 0;
  tables = record { n_ports_out = 0; n_tables = 0; table = λ i. no_table };
  lower = 0;
  live = [];
}

pipeline_table_create-CreatesTable_example :
    CreatesTable tables_api
      (some (array_params 16 0))
      none
      []
      no_tables
      (pipeline_table_create tables_api (80 ∷ []) (some (array_params 16 0)) none [] no_tables)
pipeline_table_create-CreatesTable_example =
    pipeline_table_create-CreatesTable tables_api (80 ∷ []) (some (array_params 16 0)) none []
      no_tables

abbrev ports_api : PortApi ℕ
ports_api = record {
  burst_max = 64;
  action_create = λ ap cpu_id. some (ap + 1);
  params_get = λ a. success;
  port_in_create = λ t p reader burst action. (t + 1, success, t);
  port_in_enable = λ t p port_id. t + 1;
  port_out_create = λ t p writer. (t + 1, success);
  connect_to_table = λ t p port_id table_id. (t, success);
}

abbrev one_link : DeviceLists
one_link = record {
  links = record { name = 76 ∷ []; port_id = 3; n_rxq = 2; n_txq = 2 } ∷ [];
  swqs = [];
  tmgr_ports = [];
  taps = [];
  mempools = [];
  knis = [];
  cryptodevs = [];
}

abbrev no_port : PortIn ℕ
no_port = record {
  params = record { type = in_rxq 0; dev_name = none; burst_size = 0; action_profile_name = none };
  profile = none;
  a = none;
}

abbrev no_ports : Ports ℕ ℕ
no_ports = record {
  p = 1;
  cpu_id = 0;
  n_ports_in = 0;
  port_in = λ i. no_port;
  n_ports_out = 0;
  n_tables = 1;
  lower = 0;
  live = [];
}

abbrev port_in : PortInParams
port_in = record {
  type = in_rxq 1;
  dev_name = some (76 ∷ []);
  burst_size = 32;
  action_profile_name = none;
}

abbrev port_out : PortOutParams
port_out = record {
  type = out_txq 1;
  dev_name = some (76 ∷ []);
  burst_size = 32;
  retry = 0;
  n_retries = 0;
}

pipeline_port_in_create-CreatesPortIn_example :
    CreatesPortIn ports_api one_link [] port_in no_ports
      (pipeline_port_in_create ports_api one_link [] (some port_in) true no_ports)
pipeline_port_in_create-CreatesPortIn_example =
    pipeline_port_in_create-CreatesPortIn ports_api one_link [] port_in true no_ports

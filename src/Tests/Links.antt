-- ===== src/Tests/Links.antt =====
-- A link with four queues.
use mathlib.Core.List.{List, [], ◌∷◌}
use rids.Prelude.{◌+◌, ◌-◌, ◌%◌, ◌^◌, ◌≡◌, true, none, some, arith}
use rids.Registry.{success}
use rids.Mempool.{Mempool}
use rids.Link.{LinkParamsRss, LinkParams, EthApi, link_init, reta_of, link_create}
use rids.Link.Reta.{entry_at, mask_at, reta_of-entry_at}
use rids.Link.Creates.{CreatesLink, link_create-Creates}

abbrev four_queues : LinkParamsRss
four_queues = record { queue_id = λ i. 10 + i; n_queues = 4 }

reta_of-entry_at_example :
    (entry_at (reta_of 128 four_queues) 70 ≡ (10 + 70 % 4) % 2 ^ 16)
    × (mask_at (reta_of 128 four_queues) 70 ≡ 2 ^ 64 - 1)
reta_of-entry_at_example = reta_of-entry_at 128 four_queues 70 (omega arith)

-- Every call of DPDK succeeds.
abbrev api : EthApi
api = record {
  get_port_by_name = λ name. some 0;
  is_valid_port = λ port_id. true;
  info_get =
      λ port_id. some (record { reta_size = 128; max_rx_queues = 16; flow_type_rss_offloads = 7 });
  socket_id = λ port_id. none;
  rss_hf = λ offloads. offloads;
  configure = λ port_id rx tx hash. success;
  promiscuous_enable = λ port_id. success;
  rx_queue_setup = λ port_id i size cpu_id m. success;
  tx_queue_setup = λ port_id i size cpu_id. success;
  start = λ port_id. success;
  reta_update = λ port_id reta_conf size. success;
  set_link_up = λ port_id. success;
  link_get = λ port_id. some true;
}

abbrev link_params : LinkParams
link_params = record {
  dev_name = none;
  port_id = 1;
  rx_n_queues = 4;
  rx_queue_size = 128;
  mempool_name = some (77 ∷ []);
  rss = some four_queues;
  tx_n_queues = 1;
  tx_queue_size = 512;
  promiscuous = true;
}

abbrev one_pool : List Mempool
one_pool = record { name = 77 ∷ []; m = 5; buffer_size = 2048 } ∷ []

link_create-Creates_example :
    CreatesLink
      (some (76 ∷ []))
      link_init
      (link_create api true (some (76 ∷ [])) (some link_params) one_pool link_init)
link_create-Creates_example =
    link_create-Creates api true (some (76 ∷ [])) (some link_params) one_pool link_init

-- ===== src/Tests/Requests.antt =====
-- A pipeline with one table, whose rules are read.
use rids.Prelude.{ℕ, ◌+◌, ◌≡◌, refl, true, some}
use rids.Registry.{success}
use rids.Requests.{RequestApi}
use rids.Requests.Calls.{Target, Platform}
use rids.Requests.Transparent.{
  mtr_profile_delete, perform, by_request, by_itself, perform-by_request,
}
use rids.Tests.ArrayPlane.{two_ports}

-- DPDK counts its calls.
abbrev counting : RequestApi ℕ ℕ ℕ ℕ
counting = record {
  port_in_stats_read = λ t port_id clear. (t + 1, success, t);
  port_in_enable = λ t port_id. (t + 1, success);
  port_in_disable = λ t port_id. (t + 1, success);
  port_out_stats_read = λ t port_id clear. (t + 1, success, t);
  table_stats_read = λ t table_id clear. (t + 1, success, t);
  action_stats_read = λ t a rule clear. (t + 1, success, t);
  meter_profile_add = λ t a id profile. (t + 1, success);
  meter_profile_delete = λ t a id. (t + 1, success);
  meter_read = λ t a rule tc_mask clear. (t + 1, success, t);
  dscp_table_update = λ t a mask table. (t + 1, success);
  ttl_read = λ t a rule clear. (t + 1, success, t);
  time_read = λ t a rule. (t + 1, success, t);
}

abbrev one_table : Target ℕ ℕ
one_table = record { n_ports_in = 1; tables = two_ports.tables }

abbrev thread_knows : Platform
thread_knows = record { running = true; msg_alloc = true; table_data = λ i. some 3 }

perform-by_request_example :
    perform counting (by_request thread_knows) one_table (mtr_profile_delete 0 2) 5
    ≡ perform counting (by_itself thread_knows) one_table (mtr_profile_delete 0 2) 5
perform-by_request_example =
    perform-by_request counting thread_knows one_table (λ i l. refl) 5 (mtr_profile_delete 0 2)

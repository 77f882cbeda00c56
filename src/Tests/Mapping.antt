-- ===== src/Tests/Mapping.antt =====
-- One pipeline and one thread that may run it.
use rids.Prelude.{
  ℕ, ◌≡◌, refl, sym, ap, ◌∙◌, inl, inr, ◌==◌, true, false, List, [], ◌∷◌, some, arith, Bool-cases,
  str_eq,
}
use rids.Registry.{search_list, find}
use rids.Registry.Laws.{search_list-name}
use rids.Thread.{ThreadData, done, thread_msg_handle, handle_req, thread_msg_handle_pipeline_enable}
use rids.Thread.Slots.{IsMapped}
use rids.Thread.Control.{
  Pipeline, World, Platform, thread_pipeline_enable, thread_pipeline_disable, enable_found,
  send_recv, pipeline_find, update_found,
}
use rids.Thread.Mapping.{lookup, IsConsistent}
use rids.Thread.Kept.{thread_pipeline_enable-IsConsistent, thread_pipeline_disable-IsConsistent}
use rids.Thread.Commands.{
  enable, run, IsInitial, IsInitial-IsConsistent, thread_pipeline_enable-IsMapped, run_exclusive,
}

-- P0
abbrev pipeline0 : List ℕ
pipeline0 = b'P' ∷ b'0' ∷ []

abbrev pipeline : Pipeline
pipeline = record {
  name = pipeline0;
  p = 40;
  n_ports_in = 1;
  n_ports_out = 1;
  n_tables = 1;
  table = λ i. 41;
  msgq_req = 42;
  msgq_rsp = 43;
  timer_period_ms = 10;
  enabled = false;
  thread_id = 0;
}

abbrev no_pipelines : ThreadData
no_pipelines = record {
  p = λ i. 0;
  n_pipelines = 0;
  pipeline_data = λ i. record {
    p = 0;
    table_data = λ j. 0;
    n_tables = 0;
    msgq_req = 0;
    msgq_rsp = 0;
    timer_period = 0;
    time_next = 0;
  };
}

abbrev start : World
start = record {
  pipelines = pipeline ∷ [];
  thread_enabled = λ k. k == 1;
  thread_data = λ k. no_pipelines;
}

abbrev platform : Platform
platform = record {
  max_lcore = 128;
  is_running = λ k. true;
  clock = record { hz = 2000000000; cycles = 5 };
  calloc = true;
}

only_pipeline : (n : List ℕ) (x : Pipeline) → lookup n start ≡ some x → x ≡ pipeline
unfolding search_list
only_pipeline n x h = elim (Bool-cases (str_eq pipeline0 n)) [
  | inl e ↦ ground arith
  | inr e ↦ absurd (ground arith)
]

start-IsInitial : IsInitial start
start-IsInitial = record {
  no_slots = λ k. refl;
  handles = λ m n x y a b e.
      sym (search_list-name (λ (q : Pipeline). q.name) m start.pipelines x a)
      ∙ ap (λ (q : Pipeline). q.name) (only_pipeline m x a ∙ sym (only_pipeline n y b))
      ∙ search_list-name (λ (q : Pipeline). q.name) n start.pipelines y b;
  disabled = λ n x h. ap (λ (q : Pipeline). q.enabled) (only_pipeline n x h);
}

start-IsConsistent : IsConsistent start
start-IsConsistent = IsInitial-IsConsistent start start-IsInitial

enable_done : (thread_pipeline_enable platform 1 (some pipeline0) start).1 ≡ done
unfolding thread_pipeline_enable pipeline_find find search_list str_eq enable_found send_recv
    thread_msg_handle handle_req thread_msg_handle_pipeline_enable update_found
enable_done = refl

thread_pipeline_enable-IsMapped_example :
    (x : Pipeline) × (lookup pipeline0 (thread_pipeline_enable platform 1 (some pipeline0) start).0
      ≡ some x)
    × (x.enabled ≡ true)
    × (x.thread_id ≡ 1)
    × IsMapped ((thread_pipeline_enable platform 1 (some pipeline0) start).0.thread_data 1) x.p
thread_pipeline_enable-IsMapped_example =
    thread_pipeline_enable-IsMapped platform 1 pipeline0 start start-IsConsistent enable_done

thread_pipeline_enable-IsConsistent_example :
    IsConsistent (thread_pipeline_enable platform 1 (some pipeline0) start).0
thread_pipeline_enable-IsConsistent_example =
    thread_pipeline_enable-IsConsistent platform 1 (some pipeline0) start start-IsConsistent

enabled-IsConsistent : IsConsistent (thread_pipeline_enable platform 1 (some pipeline0) start).0
enabled-IsConsistent =
    thread_pipeline_enable-IsConsistent platform 1 (some pipeline0) start start-IsConsistent

thread_pipeline_disable-IsConsistent_example :
    IsConsistent
      (thread_pipeline_disable platform 1
        (some pipeline0)
        (thread_pipeline_enable platform 1 (some pipeline0) start).0).0
thread_pipeline_disable-IsConsistent_example =
    thread_pipeline_disable-IsConsistent platform 1 (some pipeline0)
      (thread_pipeline_enable platform 1 (some pipeline0) start).0 enabled-IsConsistent

abbrev enabled_once : World
enabled_once = run (enable platform 1 (some pipeline0) ∷ []) start

abbrev enabled_pipeline : Pipeline
enabled_pipeline = record pipeline { enabled = true; thread_id = 1 }

enabled_once_slots :
    (lookup pipeline0 enabled_once ≡ some enabled_pipeline)
    × ((enabled_once.thread_data 1).n_pipelines ≡ 1)
    × ((enabled_once.thread_data 1).p 0 ≡ 40)
unfolding run thread_pipeline_enable pipeline_find find search_list str_eq enable_found send_recv
    thread_msg_handle handle_req thread_msg_handle_pipeline_enable update_found
enabled_once_slots = (refl, refl, refl)

abbrev thread1 : ℕ
thread1 = 1

abbrev slot0 : ℕ
slot0 = 0

run_exclusive_example : (thread1 ≡ 1) × (slot0 ≡ 0)
run_exclusive_example =
    run_exclusive (enable platform 1 (some pipeline0) ∷ []) start start-IsInitial pipeline0
      enabled_pipeline 1 1 0 0 enabled_once_slots.0 (omega (arith, enabled_once_slots.1))
      (omega (arith, enabled_once_slots.1)) enabled_once_slots.2 enabled_once_slots.2

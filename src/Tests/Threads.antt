-- ===== src/Tests/Threads.antt =====
-- A thread with two pipelines.
use rids.Prelude.{ℕ, ◌≡◌, refl, ◌<◌, ◌⊎◌, arith}
use rids.Thread.{
  ThreadData, PipelineData, Clock, EnableReq, done, failed, thread_pipelines_max,
  thread_msg_handle_pipeline_enable, thread_msg_handle_pipeline_disable,
}
use rids.Thread.Slots.{IsWell, Adds, Removes, enable-Adds, disable-Removes}

abbrev slot : ℕ → PipelineData
slot i = record {
  p = i;
  table_data = λ j. 0;
  n_tables = 1;
  msgq_req = 100;
  msgq_rsp = 101;
  timer_period = 0;
  time_next = 0;
}

-- The slots 0 and 1 hold the pipelines 0 and 1.
abbrev two_pipelines : ThreadData
two_pipelines = record { p = λ i. i; n_pipelines = 2; pipeline_data = slot }

two_pipelines-IsWell : IsWell two_pipelines
two_pipelines-IsWell = record {
  bounded = omega arith;
  agree = λ i l. refl;
  distinct = λ i j l m e. e;
}

abbrev clock : Clock
clock = record { hz = 2000000000; cycles = 5 }

abbrev request : EnableReq
request = record {
  p = 9;
  table = λ j. j;
  msgq_req = 102;
  msgq_rsp = 103;
  timer_period_ms = 10;
  n_tables = 3;
}

disable-Removes_example :
    Removes two_pipelines 0 (thread_msg_handle_pipeline_disable two_pipelines 0).0
    × ((thread_msg_handle_pipeline_disable two_pipelines 0).1 ≡ done)
disable-Removes_example = disable-Removes two_pipelines two_pipelines-IsWell 0

enable-Adds_example :
    ((2 < thread_pipelines_max)
      × Adds clock two_pipelines request
          (thread_msg_handle_pipeline_enable clock two_pipelines request).0
      × ((thread_msg_handle_pipeline_enable clock two_pipelines request).1 ≡ done))
    ⊎ ((2 ≡ thread_pipelines_max)
        × (thread_msg_handle_pipeline_enable clock two_pipelines request ≡ (two_pipelines, failed)))
enable-Adds_example =
    enable-Adds clock two_pipelines request two_pipelines-IsWell (λ (i, l, e). absurd (omega arith))

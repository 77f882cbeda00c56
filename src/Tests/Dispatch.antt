-- ===== src/Tests/Dispatch.antt =====
-- A thread with two pipelines, over sixteen rounds.
use mathlib.Core.List.{Mem}
use rids.Thread.{thread_msg_handle}
use rids.Prelude.{
  leb, ◌%◌, ◌^◌, if◌then◌else◌, ℕ, ◌+◌, ◌≤◌, ◌<◌, ◌≡◌, refl, List, [], ◌∷◌, leb, if◌then◌else◌,
  arith, All,
}
use rids.Thread.{PipelineData}
use rids.Thread.Dispatch.{
  ran, served, thread_served, Loop, Round, control_pass, dispatch, thread_main,
}
use rids.Thread.Dispatch.Passes.{due_events, served_slots, control_pass-time_next_min}
use rids.Thread.Dispatch.Rounds.{thread_main-serves, thread_main-answers}

-- Pipeline 7 waits until time 10, pipeline 8 until time 90.
abbrev slot : ℕ → PipelineData
slot i = record {
  p = 7 + i;
  table_data = λ j. 0;
  n_tables = 1;
  msgq_req = 100;
  msgq_rsp = 101;
  timer_period = 50;
  time_next = if leb i 0 then 10 else 90;
}

abbrev loop : Loop
loop = record {
  slots = record { p = λ i. 7 + i; n_pipelines = 2; pipeline_data = slot };
  timer_period = 40;
  time_next = 20;
  time_next_min = 10;
  i = 3;
}

abbrev round : Round
round = record {
  clock = record { hz = 1000; cycles = 30 };
  request_clock = record { hz = 1000; cycles = 31 };
  queue = [];
}

abbrev sixteen_rounds : List Round
sixteen_rounds =
    round ∷ round ∷ round ∷ round ∷ round ∷ round ∷ round ∷ round ∷ round ∷ round ∷ round ∷ round
    ∷ round ∷ round ∷ round ∷ round ∷ []

due_events_of_loop : due_events 2 0 30 slot ≡ served 7 ∷ []
unfolding due_events
due_events_of_loop = refl

dispatch_third : (dispatch round loop).1 ≡ ran 7 ∷ ran 8 ∷ []
unfolding dispatch
dispatch_third = refl

control_pass-time_next_min_example :
    ((control_pass round loop).0.time_next_min ≤ (control_pass round loop).0.time_next)
    × ((k : ℕ)
        → k < 2
        → ((control_pass round loop).0.time_next_min
            ≤ ((served_slots round loop).pipeline_data k).time_next)
          × (((served_slots round loop).pipeline_data k).time_next ≡ (
              if leb (slot k).time_next 30
              then (30 + (slot k).timer_period) % 2 ^ 64
              else (slot k).time_next)))
    × ((control_pass round loop).0.slots
        ≡ (thread_msg_handle round.request_clock (served_slots round loop) []).0)
control_pass-time_next_min_example = control_pass-time_next_min round loop

late : 25 ≤ 30
late = omega arith

All-late : All (λ r. 25 ≤ r.clock.cycles) sixteen_rounds
All-late = (
  late,
  (
    late,
    (
      late,
      (
        late,
        (
          late,
          (
            late,
            (late, (late, (late, (late, (late, (late, (late, (late, (late, (late, tt)))))))))),
          ),
        ),
      ),
    ),
  ),
)

thread_main-serves_example : Mem (served 7) (thread_main sixteen_rounds loop).1
thread_main-serves_example =
    thread_main-serves loop 25 0 sixteen_rounds (omega arith) (omega arith) (omega arith)
      (omega arith) All-late

thread_main-answers_example : Mem thread_served (thread_main sixteen_rounds loop).1
thread_main-answers_example =
    thread_main-answers loop 25 sixteen_rounds (omega arith) (omega arith) (omega arith) All-late

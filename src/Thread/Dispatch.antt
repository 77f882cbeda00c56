-- ===== src/Thread/Dispatch.antt =====
-- thread.c: `thread_main`, the loop of a data plane thread. It runs all pipelines in each round; every
-- sixteenth round it looks at the timers of the message queues.
pub mod Passes
pub mod Rounds
use rids.Prelude.{
  ℕ, zero, suc, ◌+◌, ◌-◌, ◌%◌, ◌^◌, Bool, true, false, not, ◌&&◌, ◌||◌, List, [], ◌∷◌, ◌++◌, ltb,
  leb, ◌==◌, if◌then◌else◌,
}
use rids.Thread.{ThreadData, PipelineData, Clock, ThreadReq, Status, write, thread_msg_handle}

-- What the loop does, by the handle of the pipeline: rte_pipeline_run, and pipeline_msg_handle with
-- rte_pipeline_flush; and thread_msg_handle.
pub data Event : Type 0 where
  ran : ℕ → Event
  served : ℕ → Event
  thread_served : Event

-- The thread's data and its timers, and the counter of rounds.
pub record Loop : Type 0 where
  pub slots : ThreadData
  pub timer_period : ℕ
  pub time_next : ℕ
  pub time_next_min : ℕ
  pub i : ℕ

-- What a round finds: the time, the time that thread_msg_handle reads anew, and the requests that wait
-- in the thread's queue.
pub record Round : Type 0 where
  pub clock : Clock
  pub request_clock : Clock
  pub queue : List ThreadReq

-- for (j = 0; j < n_pipelines; j++) rte_pipeline_run(t->p[j]);
unfoldable pub run_pipelines : ℕ → ℕ → (ℕ → ℕ) → List Event
run_pipelines zero j p = []
run_pipelines (suc n) j p = ran (p j) ∷ run_pipelines n (j + 1) p

abbrev pub is_due : PipelineData → ℕ → Bool
is_due slot time = leb slot.time_next time

-- p->time_next = time + p->timer_period, in 64 bits
abbrev pub rearm : ℕ → PipelineData → PipelineData
rearm time slot =
    if is_due slot time
    then record slot { time_next = (time + slot.timer_period) % 2 ^ 64 }
    else slot

abbrev pub lesser : ℕ → ℕ → ℕ
lesser time_next time_next_min = if ltb time_next time_next_min then time_next else time_next_min

-- The loop over the message queues of the pipelines, with time_next_min.
unfoldable pub serve_pipelines :
    ℕ → ℕ → ℕ → (ℕ → PipelineData) → ℕ → (ℕ → PipelineData) × ℕ × List Event
serve_pipelines zero j time slots time_next_min = (slots, time_next_min, [])
serve_pipelines (suc n) j time slots time_next_min =
    let slot = rearm time (slots j) in
    let (slots', min, events) =
      serve_pipelines n (j + 1) time (write slots j slot) (lesser slot.time_next time_next_min) in
    (slots', min, if is_due (slots j) time then served (slots j).p ∷ events else events)

-- The thread's own queue, and time_next_min at the end.
unfoldable pub serve_thread : Round → Loop → ThreadData → ℕ → Loop × List Event
unfolding thread_msg_handle
serve_thread r t slots time_next_min =
    let time_next = (r.clock.cycles + t.timer_period) % 2 ^ 64 in
    if leb t.time_next r.clock.cycles
    then (
      record t {
        slots = (thread_msg_handle r.request_clock slots r.queue).0;
        time_next = time_next;
        time_next_min = lesser time_next time_next_min;
      },
      thread_served ∷ [],
    )
    else (record t { slots = slots; time_next_min = lesser t.time_next time_next_min }, [])

-- The control plane part of a round, with UINT64_MAX to begin with.
unfoldable pub control_pass : Round → Loop → Loop × List Event
unfolding serve_pipelines serve_thread
control_pass r t =
    let (slots, min, events) =
      serve_pipelines t.slots.n_pipelines 0 r.clock.cycles t.slots.pipeline_data (2 ^ 64 - 1) in
    let (t', own) = serve_thread r t (record t.slots { pipeline_data = slots }) min in
    (t', events ++ own)

abbrev pub next_round : Loop × List Event → Loop × List Event
next_round (t, events) = (record t { i = (t.i + 1) % 2 ^ 32 }, events)

abbrev pub passes : Round → Loop → Bool
passes r t = (t.i % 16 == 0) && leb t.time_next_min r.clock.cycles

unfoldable pub dispatch : Round → Loop → Loop × List Event
unfolding run_pipelines control_pass
dispatch r t =
    let all = run_pipelines t.slots.n_pipelines 0 t.slots.p in
    let (t', events) = if passes r t then control_pass r t else (t, []) in
    next_round (t', all ++ events)

unfoldable pub thread_main : List Round → Loop → Loop × List Event
unfolding dispatch
thread_main [] t = (t, [])
thread_main (r ∷ rounds) t =
    let (t', events) = dispatch r t in
    let (t'', more) = thread_main rounds t' in (t'', events ++ more)

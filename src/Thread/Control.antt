-- ===== src/Thread/Control.antt =====
-- thread.c: `thread_pipeline_enable` and `thread_pipeline_disable` of the main thread. Where the
-- data plane thread runs, the main thread sends a request and waits; the data plane thread handles
-- what is in its queue, which is this request alone, and answers.
use rids.Prelude.{
  ℕ, ◌+◌, Bool, true, false, not, ◌||◌, List, [], ◌∷◌, Option, none, some, leb, ◌==◌, if◌then◌else◌,
  str_eq,
}
use rids.Registry.{find}
use rids.Thread.{
  ThreadData, PipelineData, Clock, EnableReq, ThreadReq, pipeline_enable, pipeline_disable, Status,
  done, failed, thread_pipelines_max, write, copy, period, deadline, find_slot, remove_slot,
  thread_msg_handle,
}

-- The fields of `struct pipeline` that the mapping reads and writes; `table` holds the actions of the
-- tables.
pub record Pipeline : Type 0 where
  pub name : List ℕ
  pub p : ℕ
  pub n_ports_in : ℕ
  pub n_ports_out : ℕ
  pub n_tables : ℕ
  pub table : ℕ → ℕ
  pub msgq_req : ℕ
  pub msgq_rsp : ℕ
  pub timer_period_ms : ℕ
  pub enabled : Bool
  pub thread_id : ℕ

-- The list of pipelines, `thread[i].enabled`, and `thread_data[i]`.
pub record World : Type 0 where
  pub pipelines : List Pipeline
  pub thread_enabled : ℕ → Bool
  pub thread_data : ℕ → ThreadData

-- RTE_MAX_LCORE, the state of the cores, the time, and whether the request is allocated.
pub record Platform : Type 0 where
  pub max_lcore : ℕ
  pub is_running : ℕ → Bool
  pub clock : Clock
  pub calloc : Bool

unfoldable pub pipeline_find : Option (List ℕ) → List Pipeline → Option Pipeline
unfolding find
pipeline_find = find (λ pipeline. pipeline.name)

-- A write through the pointer that `pipeline_find` returned.
unfoldable pub update_found : List ℕ → (Pipeline → Pipeline) → List Pipeline → List Pipeline
update_found name f [] = []
update_found name f (x ∷ xs) = if str_eq x.name name then f x ∷ xs else x ∷ update_found name f xs

-- p->thread_id = thread_id; p->enabled = 1;
abbrev pub mark_enabled : ℕ → Pipeline → Pipeline
mark_enabled thread_id p = record p { thread_id = thread_id; enabled = true }

abbrev pub mark_disabled : Pipeline → Pipeline
mark_disabled p = record p { enabled = false }

abbrev pub enable_request : Pipeline → EnableReq
enable_request p = record {
  p = p.p;
  table = p.table;
  msgq_req = p.msgq_req;
  msgq_rsp = p.msgq_rsp;
  timer_period_ms = p.timer_period_ms;
  n_tables = p.n_tables;
}

-- The slot of a thread that does not run is written by the main thread.
unfoldable pub enable_stopped : Clock → ThreadData → Pipeline → ThreadData × Status
unfolding copy
enable_stopped clock td p =
    let n = td.n_pipelines in
    let slot : PipelineData = record {
      p = p.p;
      table_data = copy p.n_tables 0 p.table (td.pipeline_data n).table_data;
      n_tables = p.n_tables;
      msgq_req = p.msgq_req;
      msgq_rsp = p.msgq_rsp;
      timer_period = period clock p.timer_period_ms;
      time_next = deadline clock p.timer_period_ms;
    } in
    if leb thread_pipelines_max n then (td, failed) else (
      record {
        p = write td.p n p.p;
        n_pipelines = n + 1;
        pipeline_data = write td.pipeline_data n slot;
      },
      done,
    )

-- rsp->status of the one response
abbrev pub first_status : List Status → Status
first_status [] = failed
first_status (s ∷ rest) = s

-- The request is sent, handled and answered; without memory for it the result is -1.
unfoldable pub send_recv : Platform → ThreadData → ThreadReq → ThreadData × Status
unfolding thread_msg_handle
send_recv platform td req =
    let (td', responses) = thread_msg_handle platform.clock td (req ∷ []) in
    if platform.calloc then (td', first_status responses) else (td, failed)

-- The world where the thread has its new data, and the pipeline is changed if the status is 0.
abbrev pub commit :
    ℕ → List ℕ → (Pipeline → Pipeline) → World → ThreadData × Status → World × Status
commit id name f w (td, done) = (
  record w { pipelines = update_found name f w.pipelines; thread_data = write w.thread_data id td },
  done,
)
commit id name f w (td, failed) = (record w { thread_data = write w.thread_data id td }, failed)

abbrev pub enable_refused : Platform → ℕ → Pipeline → World → Bool
enable_refused platform id p w =
    leb platform.max_lcore id
    || p.n_ports_in == 0
    || p.n_ports_out == 0
    || p.n_tables == 0
    || not (w.thread_enabled id)
    || p.enabled

unfoldable pub enable_found : Platform → ℕ → List ℕ → Pipeline → World → World × Status
unfolding enable_stopped send_recv
enable_found platform id name p w =
    let td = w.thread_data id in
    if enable_refused platform id p w
    then (w, failed)
    else commit id name (mark_enabled id) w (
        if platform.is_running id
        then send_recv platform td (pipeline_enable (enable_request p))
        else enable_stopped platform.clock td p)

unfoldable pub thread_pipeline_enable : Platform → ℕ → Option (List ℕ) → World → World × Status
unfolding pipeline_find enable_found
thread_pipeline_enable platform id none w = (w, failed)
thread_pipeline_enable platform id (some name) w = elim (pipeline_find (some name) w.pipelines) [
  | none ↦ (w, failed)
  | some p ↦ enable_found platform id name p w
]

-- The search and the removal by the main thread, where the thread does not run. A pipeline that has
-- no slot is left enabled.
unfoldable pub disable_stopped : ℕ → List ℕ → Pipeline → World → World × Status
unfolding find_slot remove_slot
disable_stopped id name p w =
    let td = w.thread_data id in
    elim (find_slot td.n_pipelines 0 p.p td.pipeline_data) [
      | none ↦ (w, done)
      | some i ↦ commit id name mark_disabled w (remove_slot i td, done)
    ]

unfoldable pub disable_found : Platform → ℕ → List ℕ → Pipeline → World → World × Status
unfolding disable_stopped send_recv
disable_found platform id name p w =
    if leb platform.max_lcore id || not (w.thread_enabled id)
    then (w, failed)
    else if not p.enabled
    then (w, done)
    else if not (p.thread_id == id)
    then (w, failed)
    else if platform.is_running id
    then commit id name mark_disabled w
        (send_recv platform (w.thread_data id) (pipeline_disable p.p))
    else disable_stopped id name p w

unfoldable pub thread_pipeline_disable : Platform → ℕ → Option (List ℕ) → World → World × Status
unfolding pipeline_find disable_found
thread_pipeline_disable platform id none w = (w, failed)
thread_pipeline_disable platform id (some name) w = elim (pipeline_find (some name) w.pipelines) [
  | none ↦ (w, failed)
  | some p ↦ disable_found platform id name p w
]

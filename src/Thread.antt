-- ===== src/Thread.antt =====
-- processing/dpdk_pipeline/thread.c: the data plane threads, the pipelines that are mapped to them,
-- and the messages by which the main thread changes the mapping. An array is a function of the
-- index; `n_pipelines` says which slots are in use.
pub mod Slots
pub mod Control
pub mod Mapping
pub mod Kept
pub mod Commands
pub mod Dispatch
use rids.Prelude.{
  ℕ, zero, suc, ◌+◌, ◌-◌, ◌*◌, ◌/◌, ◌%◌, ◌^◌, Bool, true, false, List, [], ◌∷◌, Option, none, some,
  ltb, leb, ◌==◌, if◌then◌else◌,
}

-- THREAD_PIPELINES_MAX
abbrev pub thread_pipelines_max : ℕ
thread_pipelines_max = 256

-- a[i] = v
abbrev pub write {ℓ} : {A : Type ℓ} → (ℕ → A) → ℕ → A → ℕ → A
write a i v j = if j == i then v else a j

-- for (k = i; k < i + n; k++) to[k] = from[k];
pub copy {ℓ} : {A : Type ℓ} → ℕ → ℕ → (ℕ → A) → (ℕ → A) → ℕ → A
copy zero i from to = to
copy (suc n) i from to = copy n (i + 1) from (write to i (from i))

-- A `struct rte_pipeline`, a table's actions and a message queue are handles, that is, numbers.
pub record PipelineData : Type 0 where
  pub p : ℕ
  pub table_data : ℕ → ℕ
  pub n_tables : ℕ
  pub msgq_req : ℕ
  pub msgq_rsp : ℕ
  pub timer_period : ℕ
  pub time_next : ℕ

pub record ThreadData : Type 0 where
  pub p : ℕ → ℕ
  pub n_pipelines : ℕ
  pub pipeline_data : ℕ → PipelineData

-- rte_get_tsc_hz() and rte_get_tsc_cycles()
pub record Clock : Type 0 where
  pub hz : ℕ
  pub cycles : ℕ

-- The 64-bit period and deadline of a timer of some milliseconds.
abbrev pub period : Clock → ℕ → ℕ
period clock ms = clock.hz * ms % 2 ^ 64 / 1000

abbrev pub deadline : Clock → ℕ → ℕ
deadline clock ms = (clock.cycles + period clock ms) % 2 ^ 64

-- The request THREAD_REQ_PIPELINE_ENABLE.
pub record EnableReq : Type 0 where
  pub p : ℕ
  pub table : ℕ → ℕ
  pub msgq_req : ℕ
  pub msgq_rsp : ℕ
  pub timer_period_ms : ℕ
  pub n_tables : ℕ

pub data ThreadReq : Type 0 where
  pipeline_enable : EnableReq → ThreadReq
  pipeline_disable : ℕ → ThreadReq
  other : ThreadReq

-- The status of a response: 0 or -1.
pub data Status : Type 0 where
  done failed : Status

-- The slot as filled in from a request; what the arrays hold behind `n_tables` stays.
unfoldable pub fill_slot : Clock → EnableReq → PipelineData → PipelineData
unfolding copy
fill_slot clock req slot = record {
  p = req.p;
  table_data = copy req.n_tables 0 req.table slot.table_data;
  n_tables = req.n_tables;
  msgq_req = req.msgq_req;
  msgq_rsp = req.msgq_rsp;
  timer_period = period clock req.timer_period_ms;
  time_next = deadline clock req.timer_period_ms;
}

unfoldable pub thread_msg_handle_pipeline_enable :
    Clock → ThreadData → EnableReq → ThreadData × Status
unfolding fill_slot
thread_msg_handle_pipeline_enable clock t req =
    let n = t.n_pipelines in
    if leb thread_pipelines_max n then (t, failed) else (
      record {
        p = write t.p n req.p;
        n_pipelines = n + 1;
        pipeline_data = write t.pipeline_data n (fill_slot clock req (t.pipeline_data n));
      },
      done,
    )

-- The search for a pipeline, over `rounds` slots from `i`.
unfoldable pub find_slot : ℕ → ℕ → ℕ → (ℕ → PipelineData) → Option ℕ
find_slot zero i pipeline slots = none
find_slot (suc rounds) i pipeline slots =
    if (slots i).p == pipeline then some i else find_slot rounds (i + 1) pipeline slots

-- The last slot in use takes the place of slot `i`.
unfoldable pub remove_slot : ℕ → ThreadData → ThreadData
remove_slot i t =
    let last = t.n_pipelines - 1 in
    if ltb i last
    then record {
      p = write t.p i (t.p last);
      n_pipelines = last;
      pipeline_data = write t.pipeline_data i (t.pipeline_data last);
    }
    else record t { n_pipelines = last }

unfoldable pub thread_msg_handle_pipeline_disable : ThreadData → ℕ → ThreadData × Status
unfolding find_slot remove_slot
thread_msg_handle_pipeline_disable t pipeline =
    elim (find_slot t.n_pipelines 0 pipeline t.pipeline_data) [
      | none ↦ (t, done)
      | some i ↦ (remove_slot i t, done)
    ]

unfoldable pub handle_req : Clock → ThreadData → ThreadReq → ThreadData × Status
unfolding thread_msg_handle_pipeline_enable thread_msg_handle_pipeline_disable
handle_req clock t (pipeline_enable req) = thread_msg_handle_pipeline_enable clock t req
handle_req clock t (pipeline_disable p) = thread_msg_handle_pipeline_disable t p
handle_req clock t other = (t, failed)

-- The requests that wait in the queue are handled in order; the responses, in order.
unfoldable pub thread_msg_handle : Clock → ThreadData → List ThreadReq → ThreadData × List Status
unfolding handle_req
thread_msg_handle clock t [] = (t, [])
thread_msg_handle clock t (req ∷ queue) =
    let (t', status) = handle_req clock t req in
    let (t'', responses) = thread_msg_handle clock t' queue in (t'', status ∷ responses)

-- ===== src/Thread/Dispatch/Rounds.antt =====
-- That queues are served, over several rounds of a thread's loop.
use mathlib.Core.List.{Mem, mem-append_left, mem-append_right, mem-cons_self, mem-cons_of_mem}
use native.Mathlib.Nat.{le_trans}
use rids.Prelude.{
  ℕ, zero, suc, ◌+◌, ◌-◌, ◌%◌, ◌^◌, ◌≤◌, ◌<◌, ◌≡◌, sym, subst, inl, inr, true, List, [], ◌∷◌, ◌++◌,
  leb, ◌==◌, if◌then◌else◌, arith, All, length, Bool-cases,
}
use rids.Thread.{PipelineData}
use rids.Thread.Dispatch.{
  Event, served, thread_served, Loop, Round, is_due, control_pass, run_pipelines, passes,
  next_round, dispatch, thread_main,
}
use rids.Thread.Dispatch.Passes.{due_events, control_pass-due_events}

due_events-Mem :
    (n j k time : ℕ) (slots : ℕ → PipelineData)
    → j ≤ k
    → k < j + n
    → is_due (slots k) time ≡ true
    → Mem (served (slots k).p) (due_events n j time slots)
unfolding due_events
due_events-Mem zero j k time slots l m due = absurd (omega arith)
due_events-Mem (suc n) j k time slots l m due = elim (Bool-cases (k == j)) [
  | inl e ↦
      let k-eq : k ≡ j = ground arith in
      let due' : is_due (slots j) time ≡ true =
        subst (λ z. is_due (slots z) time ≡ true) k-eq due in
      rw due' (
        subst (λ z. Mem (served (slots k).p) (served (slots z).p ∷ due_events n (j + 1) time slots))
          k-eq mem-cons_self)
  | inr e ↦
      let later : Mem (served (slots k).p) (due_events n (j + 1) time slots) =
        due_events-Mem n (j + 1) k time slots (ground arith) (omega arith) due in
      elim (Bool-cases (is_due (slots j) time)) [
        | inl d ↦ rw d (mem-cons_of_mem (served (slots j).p) later)
        | inr d ↦ rw d later
      ]
]

-- The loop with another counter.
abbrev at_round : Loop → ℕ → Loop
at_round t i = record t { i = i }

-- What a pass at some time or later shows is shown within the rounds up to the next pass.
thread_main-Mem :
    (event : Event) (t : Loop) (time d i : ℕ) (rounds : List Round)
    → t.time_next_min ≤ time
    → ((i : ℕ) (r : Round) → time ≤ r.clock.cycles → Mem event (control_pass r (at_round t i)).1)
    → (i + d) % 16 ≡ 0
    → d < length rounds
    → All (λ r. time ≤ r.clock.cycles) rounds
    → Mem event (thread_main rounds (at_round t i)).1
unfolding thread_main dispatch
thread_main-Mem event t time d i [] h shown at l late = absurd (omega arith)
thread_main-Mem event t time zero i (r ∷ rounds) h shown at l late =
    let e : passes r (at_round t i) ≡ true = ground (arith, late.0) in
    rw e (
      mem-append_left (thread_main rounds (next_round (control_pass r (at_round t i))).0).1
        (mem-append_right (run_pipelines t.slots.n_pipelines 0 t.slots.p) (shown i r late.0)))
thread_main-Mem event t time (suc d) i (r ∷ rounds) h shown at l late =
    elim (Bool-cases (passes r (at_round t i))) [
      | inl e ↦ rw e (
          mem-append_left (thread_main rounds (next_round (control_pass r (at_round t i))).0).1
            (mem-append_right (run_pipelines t.slots.n_pipelines 0 t.slots.p) (shown i r late.0)))
      | inr e ↦ rw e (
          mem-append_right (run_pipelines t.slots.n_pipelines 0 t.slots.p ++ []) (
            thread_main-Mem event t time d ((i + 1) % 2 ^ 32) rounds h shown (omega arith)
              (omega arith) late.1))
    ]

-- Sixteen rounds from a time on at which the timer of a pipeline has run out, and the passes are no
-- longer skipped, serve the queue of this pipeline.
pub thread_main-serves :
    (t : Loop) (time k : ℕ) (rounds : List Round)
    → k < t.slots.n_pipelines
    → (t.slots.pipeline_data k).time_next ≤ time
    → t.time_next_min ≤ time
    → 16 ≤ length rounds
    → All (λ r. time ≤ r.clock.cycles) rounds
    → Mem (served (t.slots.pipeline_data k).p) (thread_main rounds t).1
thread_main-serves t time k rounds l due awake many late =
    thread_main-Mem (served (t.slots.pipeline_data k).p) t time ((16 - t.i % 16) % 16) t.i rounds
      awake
      (λ i r h.
        subst (Mem (served (t.slots.pipeline_data k).p))
          (sym (control_pass-due_events r (at_round t i)))
          (mem-append_left _ (
            due_events-Mem t.slots.n_pipelines 0 k r.clock.cycles t.slots.pipeline_data
              (omega arith) (omega arith) (ground (arith, le_trans due h)))))
      (omega arith) (omega arith) late

-- Sixteen rounds from a time on at which the timer of the thread's own queue has run out, and the
-- passes are no longer skipped, handle the requests of this queue.
pub thread_main-answers :
    (t : Loop) (time : ℕ) (rounds : List Round)
    → t.time_next ≤ time
    → t.time_next_min ≤ time
    → 16 ≤ length rounds
    → All (λ r. time ≤ r.clock.cycles) rounds
    → Mem thread_served (thread_main rounds t).1
thread_main-answers t time rounds due awake many late =
    thread_main-Mem thread_served t time ((16 - t.i % 16) % 16) t.i rounds awake
      (λ i r h. subst (Mem thread_served) (sym (control_pass-due_events r (at_round t i))) (
        mem-append_right (due_events t.slots.n_pipelines 0 r.clock.cycles t.slots.pipeline_data)
          (own i r h)))
      (omega arith) (omega arith) late
  where
    own :
        (i : ℕ) (r : Round)
        → time ≤ r.clock.cycles
        → Mem thread_served (if leb t.time_next r.clock.cycles then thread_served ∷ [] else [])
    own i r h =
        let e : leb t.time_next r.clock.cycles ≡ true = ground (arith, le_trans due h) in
        rw e mem-cons_self

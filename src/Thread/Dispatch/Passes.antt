-- ===== src/Thread/Dispatch/Passes.antt =====
-- The timers of one pass over the message queues.
use rids.Prelude.{
  ◌%◌, ℕ, zero, suc, ◌+◌, ◌-◌, ◌^◌, ◌≤◌, ◌<◌, ◌≡◌, refl, sym, ap, subst, ◌∙◌, inl, inr, Bool, true,
  false, ◌&&◌, List, [], ◌∷◌, ◌++◌, ltb, leb, ◌==◌, if◌then◌else◌, arith, Bool-cases,
}
use native.Mathlib.Nat.{le_trans}
use rids.Thread.{ThreadData, PipelineData, write, thread_msg_handle}
use rids.Thread.Dispatch.{
  Event, served, thread_served, Loop, Round, is_due, rearm, lesser, serve_pipelines, serve_thread,
  control_pass,
}

-- The pipelines of `n` slots from slot `j` whose timers have run out.
unfoldable pub due_events : ℕ → ℕ → ℕ → (ℕ → PipelineData) → List Event
due_events zero j time slots = []
due_events (suc n) j time slots =
    let rest = due_events n (j + 1) time slots in
    if is_due (slots j) time then served (slots j).p ∷ rest else rest

-- Slots that are looked at later are as they were.
due_events-write :
    (n j i time : ℕ) (slots : ℕ → PipelineData) (slot : PipelineData)
    → i < j
    → due_events n j time (write slots i slot) ≡ due_events n j time slots
unfolding due_events
due_events-write zero j i time slots slot h = refl
due_events-write (suc n) j i time slots slot h =
    let e : (j == i) ≡ false = ground arith in
    rw (e, due_events-write n (j + 1) i time slots slot (omega arith)) refl

serve_pipelines-due_events :
    (n j time : ℕ) (slots : ℕ → PipelineData) (min : ℕ)
    → (serve_pipelines n j time slots min).2 ≡ due_events n j time slots
unfolding serve_pipelines due_events
serve_pipelines-due_events zero j time slots min = refl
serve_pipelines-due_events (suc n) j time slots min =
    rw
      (
        serve_pipelines-due_events n (j + 1) time (write slots j (rearm time (slots j)))
            (lesser (rearm time (slots j)).time_next min),
        due_events-write n (j + 1) j time slots (rearm time (slots j)) (omega arith),
      )
      refl

-- Each slot that is looked at is rearmed, and the others stay.
serve_pipelines-slots :
    (n j time : ℕ) (slots : ℕ → PipelineData) (min k : ℕ)
    → (serve_pipelines n j time slots min).0 k
      ≡ (if leb j k && ltb k (j + n) then rearm time (slots k) else slots k)
unfolding serve_pipelines
serve_pipelines-slots zero j time slots min k =
    let e : (leb j k && ltb k (j + 0)) ≡ false = ground arith in rw e refl
serve_pipelines-slots (suc n) j time slots min k =
    serve_pipelines-slots n (j + 1) time (write slots j (rearm time (slots j)))
      (lesser (rearm time (slots j)).time_next min) k
    ∙ (elim (Bool-cases (k == j)) [
      | inl e ↦
          let a : (leb (j + 1) k && ltb k (j + 1 + n)) ≡ false = ground arith in
          let b : (leb j k && ltb k (j + suc n)) ≡ true = ground arith in
          let k-eq : k ≡ j = ground arith in
          rw (a, b, e) (ap (λ z. rearm time (slots z)) (sym k-eq))
      | inr e ↦
          let a : (leb (j + 1) k && ltb k (j + 1 + n)) ≡ (leb j k && ltb k (j + suc n)) =
            ground arith in
          rw (e, a) refl
    ])

-- time_next_min does not grow, and is at most the new timer of each slot that is looked at.
serve_pipelines-min :
    (n j time : ℕ) (slots : ℕ → PipelineData) (min : ℕ)
    → ((serve_pipelines n j time slots min).1 ≤ min)
      × ((k : ℕ)
          → j ≤ k
          → k < j + n
          → (serve_pipelines n j time slots min).1 ≤ (rearm time (slots k)).time_next)
unfolding serve_pipelines
serve_pipelines-min zero j time slots min = (omega arith, λ k l m. absurd (omega arith))
serve_pipelines-min (suc n) j time slots min =
    let slot = rearm time (slots j) in
    let (below, each) =
      serve_pipelines-min n (j + 1) time (write slots j slot) (lesser slot.time_next min) in
    (
      lesser_right slot.time_next min _ below,
      λ k l m. elim (Bool-cases (k == j)) [
        | inl e ↦
            let k-eq : j ≡ k = ground arith in
            subst
              (λ z.
                (serve_pipelines n (j + 1) time (write slots j slot) (lesser slot.time_next min)).1
                ≤ (rearm time (slots z)).time_next)
              k-eq (lesser_left slot.time_next min _ below)
        | inr e ↦ other k e (each k (ground arith) (omega arith))
      ],
    )
  where
    lesser_right : (a b c : ℕ) → c ≤ lesser a b → c ≤ b
    lesser_right a b c h = ground arith

    lesser_left : (a b c : ℕ) → c ≤ lesser a b → c ≤ a
    lesser_left a b c h = ground arith

    other :
        {m : ℕ} (k : ℕ)
        → (k == j) ≡ false
        → m ≤ (rearm time (write slots j (rearm time (slots j)) k)).time_next
        → m ≤ (rearm time (slots k)).time_next
    other k e h = rw e at h

serve_thread-events :
    (r : Round) (t : Loop) (slots : ThreadData) (min : ℕ)
    → (serve_thread r t slots min).1
      ≡ (if leb t.time_next r.clock.cycles then thread_served ∷ [] else [])
unfolding serve_thread
serve_thread-events r t slots min = elim (Bool-cases (leb t.time_next r.clock.cycles)) [
  | inl e ↦ rw e refl
  | inr e ↦ rw e refl
]

-- A pass serves the queues of the pipelines whose timers have run out, each once and in the order of
-- the slots, and no others; then the thread's own queue, if its timer has run out.
pub control_pass-due_events :
    (r : Round) (t : Loop)
    → (control_pass r t).1
      ≡ due_events t.slots.n_pipelines 0 r.clock.cycles t.slots.pipeline_data
        ++ (if leb t.time_next r.clock.cycles then thread_served ∷ [] else [])
unfolding control_pass
control_pass-due_events r t =
    rw
      (
        serve_pipelines-due_events t.slots.n_pipelines 0 r.clock.cycles t.slots.pipeline_data
            (2 ^ 64 - 1),
        serve_thread-events r t
            (record t.slots {
              pipeline_data =
                  (serve_pipelines t.slots.n_pipelines 0 r.clock.cycles t.slots.pipeline_data
                    (2 ^ 64 - 1)).0;
            })
            (serve_pipelines t.slots.n_pipelines 0 r.clock.cycles t.slots.pipeline_data
              (2 ^ 64 - 1)).1,
      )
      refl

serve_thread-min :
    (r : Round) (t : Loop) (slots : ThreadData) (min : ℕ)
    → ((serve_thread r t slots min).0.time_next_min ≤ min)
      × ((serve_thread r t slots min).0.time_next_min ≤ (serve_thread r t slots min).0.time_next)
unfolding serve_thread
serve_thread-min r t slots min = elim (Bool-cases (leb t.time_next r.clock.cycles)) [
  | inl e ↦ rw e (below _ min, above _ min)
  | inr e ↦ rw e (below _ min, above _ min)
]
  where
    below : (a b : ℕ) → lesser a b ≤ b
    below a b = ground arith

    above : (a b : ℕ) → lesser a b ≤ a
    above a b = ground arith

serve_thread-slots :
    (r : Round) (t : Loop) (slots : ThreadData) (min : ℕ)
    → (serve_thread r t slots min).0.slots ≡ (
        if leb t.time_next r.clock.cycles
        then (thread_msg_handle r.request_clock slots r.queue).0
        else slots)
unfolding serve_thread
serve_thread-slots r t slots min = elim (Bool-cases (leb t.time_next r.clock.cycles)) [
  | inl e ↦ rw e refl
  | inr e ↦ rw e refl
]

-- The slots when a pass has looked at all of them.
abbrev pub served_slots : Round → Loop → ThreadData
served_slots r t = record t.slots {
  pipeline_data =
      (serve_pipelines t.slots.n_pipelines 0 r.clock.cycles t.slots.pipeline_data (2 ^ 64 - 1)).0;
}

abbrev timer_after : ℕ → PipelineData → ℕ
timer_after time slot =
    if leb slot.time_next time then (time + slot.timer_period) % 2 ^ 64 else slot.time_next

rearm-timer_after :
    (time : ℕ) (slot : PipelineData) → (rearm time slot).time_next ≡ timer_after time slot
rearm-timer_after time slot = elim (Bool-cases (leb slot.time_next time)) [
  | inl e ↦ rw e refl
  | inr e ↦ rw e refl
]

-- In a pass each pipeline in use whose timer has run out gets a new one, a period after the time of
-- the pass in 64 bits, and the timers of the others stay. The time up to which the next passes are
-- skipped is then no later than each of these timers and the timer of the thread's own queue: none
-- is overslept. The slots are as this leaves them but for the requests that the thread's own queue
-- has, which are handled after it if the timer of this queue has run out.
pub control_pass-time_next_min :
    (r : Round) (t : Loop)
    → ((control_pass r t).0.time_next_min ≤ (control_pass r t).0.time_next)
      × ((k : ℕ)
          → k < t.slots.n_pipelines
          → ((control_pass r t).0.time_next_min ≤ ((served_slots r t).pipeline_data k).time_next)
            × (((served_slots r t).pipeline_data k).time_next
                ≡ timer_after r.clock.cycles (t.slots.pipeline_data k)))
      × ((control_pass r t).0.slots ≡ (
          if leb t.time_next r.clock.cycles
          then (thread_msg_handle r.request_clock (served_slots r t) r.queue).0
          else served_slots r t))
unfolding control_pass
control_pass-time_next_min r t =
    let n = t.slots.n_pipelines in
    let time = r.clock.cycles in
    let slots = t.slots.pipeline_data in
    let served_all = serve_pipelines n 0 time slots (2 ^ 64 - 1) in
    let (small, each) = serve_pipelines-min n 0 time slots (2 ^ 64 - 1) in
    let (below, above) =
      serve_thread-min r t (record t.slots { pipeline_data = served_all.0 }) served_all.1 in
    (
      above,
      (λ k l.
          let inside : (leb 0 k && ltb k (0 + n)) ≡ true = ground arith in
          let stored : served_all.0 k ≡ rearm time (slots k) =
            serve_pipelines-slots n 0 time slots (2 ^ 64 - 1) k
            ∙ ap (λ (b : Bool). if b then rearm time (slots k) else slots k) inside in
          (
            subst (λ z. (control_pass r t).0.time_next_min ≤ z.time_next) (sym stored)
                (le_trans below (each k (omega arith) (omega arith))),
            ap (λ z. z.time_next) stored ∙ rearm-timer_after time (slots k),
          )),
      serve_thread-slots r t (served_slots r t) served_all.1,
    )

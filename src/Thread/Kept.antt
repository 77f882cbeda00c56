-- ===== src/Thread/Kept.antt =====
-- `thread_pipeline_enable` and `thread_pipeline_disable` keep the two records of the mapping in
-- agreement.
use rids.Prelude.{
  ℕ, ◌≡◌, refl, sym, subst, ◌∙◌, ◌↔◌, ◌⊎◌, inl, inr, true, false, not, ◌||◌, List, Option, none,
  some, arith, leb, ◌==◌, if◌then◌else◌, Bool-cases, Option-cases,
}
use rids.Thread.{
  ThreadData, Clock, ThreadReq, pipeline_enable, pipeline_disable, Status, done, failed, write,
  thread_msg_handle, handle_req, find_slot, remove_slot, thread_msg_handle_pipeline_enable,
  thread_msg_handle_pipeline_disable,
}
use rids.Thread.Slots.{IsMapped, Adds, Removes, enable-Adds, disable-Removes}
use rids.Thread.Control.{
  Pipeline, World, Platform, mark_enabled, mark_disabled, enable_request, send_recv, commit,
  enable_refused, enable_found, thread_pipeline_enable, disable_stopped, disable_found,
  thread_pipeline_disable, pipeline_find,
}
use rids.Thread.Mapping.{
  lookup, IsConsistent, KeepsName, changed, changed-IsConsistent, enable_stopped-eq-handle,
}

send_recv-handle_req :
    (platform : Platform) (td : ThreadData) (req : ThreadReq)
    → send_recv platform td req
      ≡ (if platform.calloc then handle_req platform.clock td req else (td, failed))
unfolding send_recv thread_msg_handle
send_recv-handle_req platform td req = refl

module _ (w : World) (c : IsConsistent w) (id : ℕ) where
  -- The thread's data is written back as it was.
  write_same-IsConsistent :
      IsConsistent (record w { thread_data = write w.thread_data id (w.thread_data id) })
  write_same-IsConsistent = record {
    wells =
        λ k. elim (Bool-cases (k == id)) [ inl e ↦ rw e (c.wells id) | inr e ↦ rw e (c.wells k) ];
    handles = c.handles;
    mapped = λ n x k h. elim (Bool-cases (k == id)) [
      | inl e ↦
          let k-eq : id ≡ k = ground arith in
          rw e (
            subst (λ j. IsMapped (w.thread_data j) x.p ↔ ((x.enabled ≡ true) × (x.thread_id ≡ k)))
              (sym k-eq) (c.mapped n x k h))
      | inr e ↦ rw e (c.mapped n x k h)
    ];
  }

  commit_failed :
      (name : List ℕ) (f : Pipeline → Pipeline) (r : ThreadData × Status)
      → r ≡ (w.thread_data id, failed)
      → IsConsistent (commit id name f w r).0
  commit_failed name f r e = rw e write_same-IsConsistent

  module _ (name : List ℕ) (p : Pipeline) (found : lookup name w ≡ some p) where
    commit_done :
        (f : Pipeline → Pipeline) (keeps : KeepsName f) (keeps_p : (x : Pipeline) → (f x).p ≡ x.p)
        (r : ThreadData × Status)
        → r.1 ≡ done
        → IsConsistent (changed w c id name p found f keeps keeps_p r.0)
        → IsConsistent (commit id name f w r).0
    commit_done f keeps keeps_p (td, done) e k = k
    commit_done f keeps keeps_p (td, failed) e k = absurd (ground arith)

    Adds-IsConsistent :
        (clock : Clock) (td : ThreadData)
        → p.enabled ≡ false
        → Adds clock (w.thread_data id) (enable_request p) td
        → IsConsistent (changed w c id name p found (mark_enabled id) (λ x. refl) (λ x. refl) td)
    Adds-IsConsistent clock td off (well, mapped, kept, added) =
        changed-IsConsistent w c id name p found (mark_enabled id) (λ x. refl) (λ x. refl) td well
          (λ y ne. (
            λ m. elim ((mapped y).0 m) [ inl a ↦ a | inr b ↦ absurd (ne b) ],
            λ m. (mapped y).1 (inl m),
          ))
          (λ k. elim (Bool-cases (k == id)) [
            | inl e ↦ rw e (λ m. (refl, ground arith), λ m. (mapped p.p).1 (inr refl))
            | inr e ↦ rw e (
              λ m. absurd (ground (arith, (c.mapped name p k found).0 m)),
              λ (a, b). absurd (ground arith),
            )
          ])

    Removes-IsConsistent :
        (td : ThreadData)
        → p.thread_id ≡ id
        → Removes (w.thread_data id) p.p td
        → IsConsistent (changed w c id name p found mark_disabled (λ x. refl) (λ x. refl) td)
    Removes-IsConsistent td own (well, mapped, kept) =
        changed-IsConsistent w c id name p found mark_disabled (λ x. refl) (λ x. refl) td well
          (λ y ne. (λ m. ((mapped y).0 m).0, λ m. (mapped y).1 (m, ne)))
          (λ k. elim (Bool-cases (k == id)) [
            | inl e ↦
                rw e (λ m. absurd (((mapped p.p).0 m).1 refl), λ (a, b). absurd (ground arith))
            | inr e ↦ rw e (
              λ m. absurd (ground (arith, (c.mapped name p k found).0 m)),
              λ (a, b). absurd (ground arith),
            )
          ])

    enable_commit-IsConsistent :
        (clock : Clock) (r : ThreadData × Status)
        → p.enabled ≡ false
        → (r ≡ thread_msg_handle_pipeline_enable clock (w.thread_data id) (enable_request p))
          ⊎ (r ≡ (w.thread_data id, failed))
        → IsConsistent (commit id name (mark_enabled id) w r).0
    enable_commit-IsConsistent clock r off (inr e) = commit_failed name (mark_enabled id) r e
    enable_commit-IsConsistent clock r off (inl e) =
        elim (enable-Adds clock (w.thread_data id) (enable_request p) (c.wells id)
          (λ m. absurd (ground (arith, (c.mapped name p id found).0 m)))) [
            | inl (room, adds, status) ↦
                commit_done (mark_enabled id) (λ x. refl) (λ x. refl) r (rw e status)
                  (Adds-IsConsistent clock r.0 off (rw e adds))
            | inr (full, same) ↦ commit_failed name (mark_enabled id) r (e ∙ same)
          ]

    disable_commit-IsConsistent :
        (r : ThreadData × Status)
        → p.thread_id ≡ id
        → (r ≡ thread_msg_handle_pipeline_disable (w.thread_data id) p.p)
          ⊎ (r ≡ (w.thread_data id, failed))
        → IsConsistent (commit id name mark_disabled w r).0
    disable_commit-IsConsistent r own (inr e) = commit_failed name mark_disabled r e
    disable_commit-IsConsistent r own (inl e) =
        let (removes, status) = disable-Removes (w.thread_data id) (c.wells id) p.p in
        commit_done mark_disabled (λ x. refl) (λ x. refl) r (rw e status)
          (Removes-IsConsistent r.0 own (rw e removes))

    enable_found-IsConsistent :
        (platform : Platform) → IsConsistent (enable_found platform id name p w).0
    unfolding enable_found
    enable_found-IsConsistent platform = elim (Bool-cases (enable_refused platform id p w)) [
      | inl e ↦ rw e c
      | inr e ↦ elim (Bool-cases (platform.is_running id)) [
        | inl running ↦ elim (Bool-cases platform.calloc) [
          | inl room ↦
              rw (e, running)
                (enable_commit-IsConsistent platform.clock _ (ground arith) (
                  inl (
                    send_recv-handle_req platform (w.thread_data id)
                      (pipeline_enable (enable_request p))
                    ∙ handled platform room)))
          | inr full ↦
              rw (e, running)
                (enable_commit-IsConsistent platform.clock _ (ground arith) (
                  inr (
                    send_recv-handle_req platform (w.thread_data id)
                      (pipeline_enable (enable_request p))
                    ∙ rw full refl)))
        ]
        | inr stopped ↦
            rw (e, stopped)
              (enable_commit-IsConsistent platform.clock _ (ground arith)
                (inl (enable_stopped-eq-handle platform.clock (w.thread_data id) p)))
      ]
    ]
      where
        handled :
            (platform : Platform)
            → platform.calloc ≡ true
            → (if platform.calloc
                then handle_req platform.clock
                    (w.thread_data id)
                    (pipeline_enable (enable_request p))
                else (w.thread_data id, failed))
              ≡ thread_msg_handle_pipeline_enable platform.clock
                  (w.thread_data id)
                  (enable_request p)
        handled platform room = unfold handle_req in rw room refl

    disable_stopped-IsConsistent : p.thread_id ≡ id → IsConsistent (disable_stopped id name p w).0
    unfolding disable_stopped thread_msg_handle_pipeline_disable
    disable_stopped-IsConsistent own =
        elim (Option-cases
          (find_slot (w.thread_data id).n_pipelines 0 p.p (w.thread_data id).pipeline_data)) [
            | inl e ↦ rw (e, disable_stopped) c
            | inr (i, e) ↦
                rw (e, disable_stopped)
                  (disable_commit-IsConsistent (remove_slot i (w.thread_data id), done) own
                    (inl (rw (e, thread_msg_handle_pipeline_disable) refl)))
          ]

    disable_found-IsConsistent :
        (platform : Platform) → IsConsistent (disable_found platform id name p w).0
    unfolding disable_found
    disable_found-IsConsistent platform =
        elim (Bool-cases (leb platform.max_lcore id || not (w.thread_enabled id))) [
          | inl e ↦ rw e c
          | inr e ↦ elim (Bool-cases p.enabled) [
            | inr off ↦ rw (e, off) c
            | inl on ↦ elim (Bool-cases (p.thread_id == id)) [
              | inr elsewhere ↦ rw (e, on, elsewhere) c
              | inl here ↦ elim (Bool-cases (platform.is_running id)) [
                | inr stopped ↦
                    rw (e, on, here, stopped) (disable_stopped-IsConsistent (ground arith))
                | inl running ↦
                    rw (e, on, here, running)
                      (disable_commit-IsConsistent _ (ground arith) (answer platform))
              ]
            ]
          ]
        ]
      where
        answer :
            (platform : Platform)
            → (send_recv platform (w.thread_data id) (pipeline_disable p.p)
                ≡ thread_msg_handle_pipeline_disable (w.thread_data id) p.p)
              ⊎ (send_recv platform (w.thread_data id) (pipeline_disable p.p)
                  ≡ (w.thread_data id, failed))
        answer platform =
            unfold handle_req in
            elim (Bool-cases platform.calloc) [
              | inl room ↦ inl (
                  send_recv-handle_req platform (w.thread_data id) (pipeline_disable p.p)
                  ∙ rw room refl)
              | inr full ↦ inr (
                  send_recv-handle_req platform (w.thread_data id) (pipeline_disable p.p)
                  ∙ rw full refl)
            ]

-- Whether the thread runs or not, and whatever fails, `thread_pipeline_enable` keeps both records of
-- the mapping in agreement: a pipeline has a slot of a thread exactly if it is enabled with that
-- thread's number, and no pipeline has two slots.
pub thread_pipeline_enable-IsConsistent :
    (platform : Platform) (id : ℕ) (name : Option (List ℕ)) (w : World)
    → IsConsistent w
    → IsConsistent (thread_pipeline_enable platform id name w).0
unfolding thread_pipeline_enable pipeline_find
thread_pipeline_enable-IsConsistent platform id none w c = c
thread_pipeline_enable-IsConsistent platform id (some name) w c =
    elim (Option-cases (lookup name w)) [
      | inl e ↦ rw (e, thread_pipeline_enable) c
      | inr (p, e) ↦
          rw (e, thread_pipeline_enable) (enable_found-IsConsistent w c id name p e platform)
    ]

-- Whether the thread runs or not, and whatever fails, `thread_pipeline_disable` keeps both records of
-- the mapping in agreement: a pipeline has a slot of a thread exactly if it is enabled with that
-- thread's number, and no pipeline has two slots.
pub thread_pipeline_disable-IsConsistent :
    (platform : Platform) (id : ℕ) (name : Option (List ℕ)) (w : World)
    → IsConsistent w
    → IsConsistent (thread_pipeline_disable platform id name w).0
unfolding thread_pipeline_disable pipeline_find
thread_pipeline_disable-IsConsistent platform id none w c = c
thread_pipeline_disable-IsConsistent platform id (some name) w c =
    elim (Option-cases (lookup name w)) [
      | inl e ↦ rw (e, thread_pipeline_disable) c
      | inr (p, e) ↦
          rw (e, thread_pipeline_disable) (disable_found-IsConsistent w c id name p e platform)
    ]

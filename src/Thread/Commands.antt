-- ===== src/Thread/Commands.antt =====
-- What a successful `thread_pipeline_enable` brings about, and sequences of commands from the start.
use rids.Prelude.{
  ℕ, ◌<◌, ◌≡◌, refl, sym, subst, ◌∙◌, inl, inr, true, false, List, [], ◌∷◌, Option, none, some,
  arith, Bool-cases, Option-cases,
}
use rids.Thread.{ThreadData, Status, done, failed}
use rids.Thread.Slots.{IsMapped}
use rids.Thread.Control.{
  Pipeline, World, Platform, mark_enabled, commit, enable_refused, enable_found,
  thread_pipeline_enable, thread_pipeline_disable, pipeline_find,
}
use rids.Thread.Mapping.{lookup, IsConsistent, KeepsName, search-update_self}
use rids.Thread.Kept.{thread_pipeline_enable-IsConsistent, thread_pipeline_disable-IsConsistent}

lookup-commit :
    (id : ℕ) (name : List ℕ) (f : Pipeline → Pipeline) (w : World) (r : ThreadData × Status)
    (p : Pipeline)
    → KeepsName f
    → lookup name w ≡ some p
    → (commit id name f w r).1 ≡ done
    → lookup name (commit id name f w r).0 ≡ some (f p)
lookup-commit id name f w (td, done) p keeps found h =
    search-update_self name f w.pipelines p keeps found
lookup-commit id name f w (td, failed) p keeps found h = absurd (ground arith)

lookup-enable_found :
    (platform : Platform) (id : ℕ) (name : List ℕ) (w : World) (p : Pipeline)
    → lookup name w ≡ some p
    → (enable_found platform id name p w).1 ≡ done
    → lookup name (enable_found platform id name p w).0 ≡ some (mark_enabled id p)
lookup-enable_found platform id name w p found =
    unfold enable_found in
    elim (Bool-cases (enable_refused platform id p w)) [
      | inl e ↦ rw e (λ h. absurd (ground arith))
      | inr e ↦ rw e (lookup-commit id name (mark_enabled id) w _ p (λ x. refl) found)
    ]

-- From a state in which the slots of the threads and the pipelines' own records agree: if
-- `thread_pipeline_enable` returns 0, the pipeline of that name is afterwards enabled with the
-- number of the thread, and has one of the slots in use there.
pub thread_pipeline_enable-IsMapped :
    (platform : Platform) (id : ℕ) (name : List ℕ) (w : World)
    → IsConsistent w
    → (thread_pipeline_enable platform id (some name) w).1 ≡ done
    → (x : Pipeline) × (lookup name (thread_pipeline_enable platform id (some name) w).0 ≡ some x)
      × (x.enabled ≡ true)
      × (x.thread_id ≡ id)
      × IsMapped ((thread_pipeline_enable platform id (some name) w).0.thread_data id) x.p
thread_pipeline_enable-IsMapped platform id name w c h = elim (Option-cases (lookup name w)) [
  | inl e ↦ absurd (refused e h)
  | inr (p, e) ↦
      let after = (thread_pipeline_enable platform id (some name) w).0 in
      let now : lookup name after ≡ some (mark_enabled id p) = found p e h in
      let kept : IsConsistent after =
        thread_pipeline_enable-IsConsistent platform id (some name) w c in
      (
        mark_enabled id p,
        now,
        refl,
        refl,
        (kept.mapped name (mark_enabled id p) id now).1 (refl, refl),
      )
]
  where
    refused : lookup name w ≡ none → (thread_pipeline_enable platform id (some name) w).1 ≡ done → ⊥
    refused e =
        unfold thread_pipeline_enable pipeline_find in
        rw (e, thread_pipeline_enable) (λ q. absurd (ground arith))

    found :
        (p : Pipeline)
        → lookup name w ≡ some p
        → (thread_pipeline_enable platform id (some name) w).1 ≡ done
        → lookup name (thread_pipeline_enable platform id (some name) w).0
          ≡ some (mark_enabled id p)
    found p e =
        unfold thread_pipeline_enable pipeline_find in
        rw (e, thread_pipeline_enable) (lookup-enable_found platform id name w p e)

-- A call of the main thread, with the state of the platform at that time.
pub data Command : Type 0 where
  enable disable : Platform → ℕ → Option (List ℕ) → Command

unfoldable pub run : List Command → World → World
run [] w = w
run (enable platform id name ∷ rest) w = run rest (thread_pipeline_enable platform id name w).0
run (disable platform id name ∷ rest) w = run rest (thread_pipeline_disable platform id name w).0

-- The start: no pipeline is enabled, no slot is in use, and different pipelines have different
-- handles.
pub record IsInitial (w : World) : Type 0 where
  pub no_slots : (k : ℕ) → (w.thread_data k).n_pipelines ≡ 0
  pub handles :
      (m n : List ℕ) (x y : Pipeline)
      → lookup m w ≡ some x
      → lookup n w ≡ some y
      → x.p ≡ y.p
      → m ≡ n
  pub disabled : (n : List ℕ) (x : Pipeline) → lookup n w ≡ some x → x.enabled ≡ false

pub IsInitial-IsConsistent : (w : World) → IsInitial w → IsConsistent w
IsInitial-IsConsistent w s = record {
  wells = λ k. record {
    bounded = ground (arith, s.no_slots k);
    agree = λ i l. absurd (omega (arith, s.no_slots k));
    distinct = λ i j l m e. absurd (omega (arith, s.no_slots k));
  };
  handles = s.handles;
  mapped = λ n x k h. (
    λ (i, l, e). absurd (omega (arith, s.no_slots k)),
    λ (a, b). absurd (ground (arith, s.disabled n x h)),
  );
}

run-IsConsistent :
    (commands : List Command) (w : World) → IsConsistent w → IsConsistent (run commands w)
unfolding run
run-IsConsistent [] w c = c
run-IsConsistent (enable platform id name ∷ rest) w c =
    run-IsConsistent rest (thread_pipeline_enable platform id name w).0
      (thread_pipeline_enable-IsConsistent platform id name w c)
run-IsConsistent (disable platform id name ∷ rest) w c =
    run-IsConsistent rest (thread_pipeline_disable platform id name w).0
      (thread_pipeline_disable-IsConsistent platform id name w c)

-- From a start where no slot is in use, no pipeline is enabled, and different pipelines have different
-- handles: after any sequence of enabling and disabling, with whatever answers of the platform, no
-- pipeline of the list has slots of two threads, nor two slots of one.
pub run_exclusive :
    (commands : List Command) (w : World)
    → IsInitial w
    → (n : List ℕ) (x : Pipeline) (k l i j : ℕ) → lookup n (run commands w) ≡ some x
    → i < ((run commands w).thread_data k).n_pipelines
    → j < ((run commands w).thread_data l).n_pipelines
    → ((run commands w).thread_data k).p i ≡ x.p
    → ((run commands w).thread_data l).p j ≡ x.p
    → (k ≡ l) × (i ≡ j)
run_exclusive commands w s n x k l i j found i-lt j-lt i-eq j-eq =
    let c = run-IsConsistent commands w (IsInitial-IsConsistent w s) in
    let k-eq : x.thread_id ≡ k = ((c.mapped n x k found).0 (i, i-lt, i-eq)).1 in
    let l-eq : x.thread_id ≡ l = ((c.mapped n x l found).0 (j, j-lt, j-eq)).1 in
    let same : k ≡ l = sym k-eq ∙ l-eq in (same, slot k l same i-lt j-lt i-eq j-eq)
  where
    slot :
        (k l : ℕ)
        → k ≡ l
        → i < ((run commands w).thread_data k).n_pipelines
        → j < ((run commands w).thread_data l).n_pipelines
        → ((run commands w).thread_data k).p i ≡ x.p
        → ((run commands w).thread_data l).p j ≡ x.p
        → i ≡ j
    slot k l same i-lt j-lt i-eq j-eq =
        let c = run-IsConsistent commands w (IsInitial-IsConsistent w s) in
        let j-lt' : j < ((run commands w).thread_data k).n_pipelines =
          subst (λ q. j < ((run commands w).thread_data q).n_pipelines) (sym same) j-lt in
        let j-eq' : ((run commands w).thread_data k).p j ≡ x.p =
          subst (λ q. ((run commands w).thread_data q).p j ≡ x.p) (sym same) j-eq in
        (c.wells k).distinct i j i-lt j-lt' (i-eq ∙ sym j-eq')

-- ===== src/Thread/Slots.antt =====
-- The slots of a data plane thread as a set of pipelines.
use rids.Prelude.{
  ℕ, zero, suc, ◌+◌, ◌-◌, ◌≤◌, ◌<◌, ◌≡◌, refl, sym, ap, ◌∙◌, ◌≢◌, ◌↔◌, ◌⊎◌, inl, inr, true, false,
  none, some, arith, ltb, leb, ◌==◌, if◌then◌else◌, Bool-cases, Option-cases,
}
use rids.Thread.{
  ThreadData, PipelineData, Clock, EnableReq, Status, done, failed, thread_pipelines_max, fill_slot,
  thread_msg_handle_pipeline_enable, find_slot, remove_slot, thread_msg_handle_pipeline_disable,
}

-- A slot in use holds the pipeline.
abbrev pub IsMapped : ThreadData → ℕ → Type 0
IsMapped t x = (i : ℕ) × (i < t.n_pipelines) × (t.p i ≡ x)

-- The two arrays agree, and no pipeline has two slots.
pub record IsWell (t : ThreadData) : Type 0 where
  pub bounded : t.n_pipelines ≤ thread_pipelines_max
  pub agree : (i : ℕ) → i < t.n_pipelines → (t.pipeline_data i).p ≡ t.p i
  pub distinct : (i j : ℕ) → i < t.n_pipelines → j < t.n_pipelines → t.p i ≡ t.p j → i ≡ j

module _ (clock : Clock) (t : ThreadData) (req : EnableReq) where
  abbrev enabled : ThreadData × Status
  enabled = thread_msg_handle_pipeline_enable clock t req

  enable-IsMapped :
      t.n_pipelines < thread_pipelines_max
      → (x : ℕ) → IsMapped enabled.0 x ↔ (IsMapped t x ⊎ (x ≡ req.p))
  unfolding thread_msg_handle_pipeline_enable
  enable-IsMapped room x = (there, back)
    where
      there : IsMapped enabled.0 x → IsMapped t x ⊎ (x ≡ req.p)
      there (i, l, e) = elim (Bool-cases (i == t.n_pipelines)) [
        | inl same ↦ inr (ground arith)
        | inr before ↦ inl (i, ground arith, ground arith)
      ]

      back : IsMapped t x ⊎ (x ≡ req.p) → IsMapped enabled.0 x
      back (inl (i, l, e)) = (i, ground arith, ground arith)
      back (inr e) = (t.n_pipelines, ground arith, ground arith)

  pub enable-IsWell : IsWell t → ¬ IsMapped t req.p → IsWell enabled.0
  unfolding thread_msg_handle_pipeline_enable fill_slot
  enable-IsWell w new = elim (Bool-cases (leb thread_pipelines_max t.n_pipelines)) [
    | inl full ↦ rw full w
    | inr room ↦ rw room (record {
      bounded = ground arith;
      agree = λ i l. ground (arith, w.agree i);
      distinct = λ i j l m e. elim (Bool-cases (i == t.n_pipelines)) [
        | inl a ↦ elim (Bool-cases (j == t.n_pipelines)) [
          | inl b ↦ ground arith
          | inr b ↦ absurd (new (j, ground arith, ground arith))
        ]
        | inr a ↦ elim (Bool-cases (j == t.n_pipelines)) [
          | inl b ↦ absurd (new (i, ground arith, ground arith))
          | inr b ↦ w.distinct i j (ground arith) (ground arith) (ground arith)
        ]
      ];
    })
  ]

k-eq : (k i : ℕ) → (k == i) ≡ true → k ≡ i
k-eq k i h = ground arith

-- The slot found holds the pipeline; where none is found, no slot that was looked at does.
find_slot-some :
    (rounds i target : ℕ) (slots : ℕ → PipelineData) (k : ℕ)
    → find_slot rounds i target slots ≡ some k
    → (i ≤ k) × (k < i + rounds) × ((slots k).p ≡ target)
unfolding find_slot
find_slot-some zero i target slots k h = absurd (ground arith)
find_slot-some (suc rounds) i target slots k h =
    ground (arith, find_slot-some rounds (i + 1) target slots k)

find_slot-none :
    (rounds i target : ℕ) (slots : ℕ → PipelineData) (k : ℕ)
    → find_slot rounds i target slots ≡ none
    → i ≤ k
    → k < i + rounds
    → (slots k).p ≢ target
unfolding find_slot
find_slot-none zero i target slots k h l m = absurd (omega arith)
find_slot-none (suc rounds) i target slots k h l m = elim (Bool-cases ((slots i).p == target)) [
  | inl e ↦ absurd (ground arith)
  | inr e ↦ elim (Bool-cases (k == i)) [
    | inl same ↦ λ q. ground (arith, ap (λ j. (slots j).p) (k-eq k i same))
    | inr other ↦
        find_slot-none rounds (i + 1) target slots k (ground arith) (ground arith) (omega arith)
  ]
]

module _ (t : ThreadData) (i : ℕ) (l : i < t.n_pipelines) where
  -- The slot of `t` that stands in slot `j` afterwards.
  abbrev source : ℕ → ℕ
  source j = if j == i then t.n_pipelines - 1 else j

  n_pipelines-remove : (remove_slot i t).n_pipelines ≡ t.n_pipelines - 1
  unfolding remove_slot
  n_pipelines-remove = ground arith

  source_lem :
      (j : ℕ)
      → j < t.n_pipelines - 1
      → ((remove_slot i t).p j ≡ t.p (source j))
        × ((remove_slot i t).pipeline_data j ≡ t.pipeline_data (source j))
        × (source j < t.n_pipelines)
        × (source j ≢ i)
  unfolding remove_slot
  source_lem j m = elim (Bool-cases (ltb i (t.n_pipelines - 1))) [
    | inl c ↦ elim (Bool-cases (j == i)) [
      | inl e ↦ rw (c, e) (refl, refl, omega arith, ground arith)
      | inr e ↦ rw (c, e) (refl, refl, omega arith, ground arith)
    ]
    | inr c ↦
        let e : (j == i) ≡ false = ground arith in rw (c, e) (refl, refl, omega arith, ground arith)
  ]

  source_injective :
      (j k : ℕ) → j < t.n_pipelines - 1 → k < t.n_pipelines - 1 → source j ≡ source k → j ≡ k
  source_injective j k m n e = ground arith

  source_surjective :
      (k : ℕ) → k < t.n_pipelines → k ≢ i → (j : ℕ) × (j < t.n_pipelines - 1) × (source j ≡ k)
  source_surjective k m n = elim (Bool-cases (k == t.n_pipelines - 1)) [
    | inl e ↦ (i, ground arith, ground arith)
    | inr e ↦ (k, ground arith, ground arith)
  ]

module _ (t : ThreadData) (w : IsWell t) (i : ℕ) (l : i < t.n_pipelines) where
  remove-IsMapped : (x : ℕ) → IsMapped (remove_slot i t) x ↔ (IsMapped t x × (x ≢ t.p i))
  remove-IsMapped x = (there, back)
    where
      there : IsMapped (remove_slot i t) x → IsMapped t x × (x ≢ t.p i)
      there (j, m, e) =
          let m' : j < t.n_pipelines - 1 = omega (arith, n_pipelines-remove t i l) in
          let (same, slots, below, other) = source_lem t i l j m' in
          (
            (source t i l j, below, sym same ∙ e),
            λ x-eq. other (w.distinct (source t i l j) i below l (sym same ∙ e ∙ x-eq)),
          )

      back : IsMapped t x × (x ≢ t.p i) → IsMapped (remove_slot i t) x
      back ((j, m, e), n) =
          let (k, m', is) = source_surjective t i l j m (λ q. n (sym e ∙ ap t.p q)) in
          let (same, slots, below, other) = source_lem t i l k m' in
          (k, omega (arith, n_pipelines-remove t i l), same ∙ ap t.p is ∙ e)

  remove-IsWell : IsWell (remove_slot i t)
  remove-IsWell = record {
    bounded = omega (arith, n_pipelines-remove t i l, w.bounded);
    agree = λ j m.
        let (same, slots, below, other) =
          source_lem t i l j (omega (arith, n_pipelines-remove t i l)) in
        ap (λ (s : PipelineData). s.p) slots ∙ w.agree (source t i l j) below ∙ sym same;
    distinct = λ j k m n e.
        let m' : j < t.n_pipelines - 1 = omega (arith, n_pipelines-remove t i l) in
        let n' : k < t.n_pipelines - 1 = omega (arith, n_pipelines-remove t i l) in
        let (same, slots, below, other) = source_lem t i l j m' in
        let (same', slots', below', other') = source_lem t i l k n' in
        source_injective t i l j k m' n'
          (w.distinct (source t i l j) (source t i l k) below below' (sym same ∙ e ∙ same'));
  }

-- `t'` has the slots of `t` without that of pipeline `x`, perhaps in another order.
abbrev pub Removes : ThreadData → ℕ → ThreadData → Type 0
Removes t x t' =
    IsWell t'
    × ((y : ℕ) → IsMapped t' y ↔ (IsMapped t y × (y ≢ x)))
    × ((k : ℕ)
        → k < t.n_pipelines
        → t.p k ≢ x
        → (j : ℕ) × (j < t'.n_pipelines) × (t'.pipeline_data j ≡ t.pipeline_data k))

module _ (t : ThreadData) (w : IsWell t) (x : ℕ) where
  remove-Removes : (i : ℕ) → i < t.n_pipelines → t.p i ≡ x → Removes t x (remove_slot i t)
  remove-Removes i l e = (
    remove-IsWell t w i l,
    λ y. (
      λ m.
          let (mapped, other) = (remove-IsMapped t w i l y).0 m in (mapped, λ q. other (q ∙ sym e)),
      λ (mapped, other). (remove-IsMapped t w i l y).1 (mapped, λ q. other (q ∙ e)),
    ),
    λ k m n.
        let (j, m', is) = source_surjective t i l k m (λ q. n (ap t.p q ∙ e)) in
        let (same, slots, below, other) = source_lem t i l j m' in
        (j, omega (arith, n_pipelines-remove t i l), slots ∙ ap t.pipeline_data is),
  )

  none-Removes : find_slot t.n_pipelines 0 x t.pipeline_data ≡ none → Removes t x t
  none-Removes e = (
    w,
    λ y. (λ (i, l, m). ((i, l, m), λ q. absent i l (m ∙ q)), λ (mapped, other). mapped),
    λ k m n. (k, m, refl),
  )
    where
      absent : (i : ℕ) → i < t.n_pipelines → t.p i ≡ x → ⊥
      absent i l q =
          find_slot-none t.n_pipelines 0 x t.pipeline_data i e (omega arith) (omega arith)
            (w.agree i l ∙ q)

  -- Disabling a pipeline takes exactly this one from the slots of a well-formed thread, which stays
  -- well formed; each pipeline that stays keeps the contents of its slot. The status is 0.
  pub disable-Removes :
      Removes t x (thread_msg_handle_pipeline_disable t x).0
      × ((thread_msg_handle_pipeline_disable t x).1 ≡ done)
  unfolding thread_msg_handle_pipeline_disable
  disable-Removes = elim (Option-cases (find_slot t.n_pipelines 0 x t.pipeline_data)) [
    | inl e ↦
        let same : thread_msg_handle_pipeline_disable t x ≡ (t, done) =
          rw (e, thread_msg_handle_pipeline_disable) in
        rw same (none-Removes e, refl)
    | inr (i, e) ↦
        let same : thread_msg_handle_pipeline_disable t x ≡ (remove_slot i t, done) =
          rw (e, thread_msg_handle_pipeline_disable) in
        let (low, high, is) = find_slot-some t.n_pipelines 0 x t.pipeline_data i e in
        rw same (remove-Removes i (omega arith) (sym (w.agree i (omega arith)) ∙ is), refl)
  ]

-- `t'` has the slots of `t` and one more behind them.
abbrev pub Adds : Clock → ThreadData → EnableReq → ThreadData → Type 0
Adds clock t req t' =
    IsWell t'
    × ((y : ℕ) → IsMapped t' y ↔ (IsMapped t y ⊎ (y ≡ req.p)))
    × ((k : ℕ) → k < t.n_pipelines → t'.pipeline_data k ≡ t.pipeline_data k)
    × (t'.pipeline_data t.n_pipelines ≡ fill_slot clock req (t.pipeline_data t.n_pipelines))

module _ (clock : Clock) (t : ThreadData) (req : EnableReq) (w : IsWell t) where
  -- Enabling a pipeline that is not mapped adds exactly this one to the slots of a well-formed
  -- thread, which stays well formed, with the status 0; where all slots are in use nothing changes
  -- and the status is -1.
  pub enable-Adds :
      ¬ IsMapped t req.p
      → ((t.n_pipelines < thread_pipelines_max)
          × Adds clock t req (thread_msg_handle_pipeline_enable clock t req).0
          × ((thread_msg_handle_pipeline_enable clock t req).1 ≡ done))
        ⊎ ((t.n_pipelines ≡ thread_pipelines_max)
            × (thread_msg_handle_pipeline_enable clock t req ≡ (t, failed)))
  enable-Adds new = elim (Bool-cases (leb thread_pipelines_max t.n_pipelines)) [
    | inl full ↦ inr (ground (arith, w.bounded), enable_full full)
    | inr room ↦ inl (
      ground arith,
      (
        enable-IsWell clock t req w new,
        enable-IsMapped clock t req (ground arith),
        λ k l. (enable_slots room).0 k l,
        (enable_slots room).1,
      ),
      enable_status room,
    )
  ]
    where
      enable_full :
          leb thread_pipelines_max t.n_pipelines ≡ true
          → thread_msg_handle_pipeline_enable clock t req ≡ (t, failed)
      enable_full full = unfold thread_msg_handle_pipeline_enable in rw full

      enable_status :
          leb thread_pipelines_max t.n_pipelines ≡ false
          → (thread_msg_handle_pipeline_enable clock t req).1 ≡ done
      enable_status room = unfold thread_msg_handle_pipeline_enable in rw room

      enable_slots :
          leb thread_pipelines_max t.n_pipelines ≡ false
          → ((k : ℕ)
              → k < t.n_pipelines
              → (thread_msg_handle_pipeline_enable clock t req).0.pipeline_data k
                ≡ t.pipeline_data k)
            × ((thread_msg_handle_pipeline_enable clock t req).0.pipeline_data t.n_pipelines
                ≡ fill_slot clock req (t.pipeline_data t.n_pipelines))
      enable_slots room =
          unfold thread_msg_handle_pipeline_enable in rw room (λ k l. ground arith, ground arith)

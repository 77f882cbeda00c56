-- ===== src/Thread/Mapping.antt =====
-- The mapping of pipelines to threads, as the main thread and the data plane threads record it.
use rids.Prelude.{
  ℕ, ◌≡◌, refl, sym, ap, subst, ◌∙◌, ◌≢◌, ◌↔◌, ◌⊎◌, inl, inr, true, false, List, [], ◌∷◌, Option,
  some, arith, ◌==◌, Bool-cases, str_eq, str_eq_sound, str_eq_refl,
}
use mathlib.Core.Option.{some-injective}
use rids.Registry.{search_list}
use rids.Thread.{ThreadData, Clock, done, write, thread_msg_handle_pipeline_enable}
use rids.Thread.Slots.{IsMapped, IsWell}
use rids.Thread.Control.{Pipeline, World, update_found, enable_request, enable_stopped, commit}

abbrev pub lookup : List ℕ → World → Option Pipeline
lookup name w = search_list (λ (x : Pipeline). x.name) name w.pipelines

-- Writing a slot from the main thread or through a request comes to the same.
pub enable_stopped-eq-handle :
    (clock : Clock) (td : ThreadData) (p : Pipeline)
    → enable_stopped clock td p ≡ thread_msg_handle_pipeline_enable clock td (enable_request p)
unfolding enable_stopped thread_msg_handle_pipeline_enable
enable_stopped-eq-handle clock td p = refl

abbrev pub KeepsName : (Pipeline → Pipeline) → Type 0
KeepsName f = (x : Pipeline) → (f x).name ≡ x.name

-- What is found after a write through the pointer found under the same name, or another.
pub search-update_self :
    (n : List ℕ) (f : Pipeline → Pipeline) (xs : List Pipeline) (x : Pipeline)
    → KeepsName f
    → search_list (λ (x : Pipeline). x.name) n xs ≡ some x
    → search_list (λ (x : Pipeline). x.name) n (update_found n f xs) ≡ some (f x)
unfolding search_list update_found
search-update_self n f [] x same h = absurd (ground arith)
search-update_self n f (y ∷ xs) x same h = elim (Bool-cases (str_eq y.name n)) [
  | inl e ↦ ground (arith, same y)
  | inr e ↦ rw (e, e) (search-update_self n f xs x same (ground arith))
]

search-update_ne :
    (m n : List ℕ) (f : Pipeline → Pipeline) (xs : List Pipeline)
    → KeepsName f
    → m ≢ n
    → search_list (λ (x : Pipeline). x.name) n (update_found m f xs)
      ≡ search_list (λ (x : Pipeline). x.name) n xs
unfolding search_list update_found
search-update_ne m n f [] same d = refl
search-update_ne m n f (y ∷ xs) same d = elim (Bool-cases (str_eq y.name m)) [
  | inl e ↦ elim (Bool-cases (str_eq y.name n)) [
    | inl e' ↦ absurd (d (sym (str_eq_sound y.name m e) ∙ str_eq_sound y.name n e'))
    | inr e' ↦ ground (arith, same y)
  ]
  | inr e ↦ ground (arith, search-update_ne m n f xs same d)
]

-- Both records agree: a pipeline has a slot of a thread exactly if it is enabled with that thread's
-- number; threads are well formed, and different names have different handles.
pub record IsConsistent (w : World) : Type 0 where
  pub wells : (k : ℕ) → IsWell (w.thread_data k)
  pub handles :
      (m n : List ℕ) (x y : Pipeline)
      → lookup m w ≡ some x
      → lookup n w ≡ some y
      → x.p ≡ y.p
      → m ≡ n
  pub mapped :
      (n : List ℕ) (x : Pipeline) (k : ℕ)
      → lookup n w ≡ some x
      → IsMapped (w.thread_data k) x.p ↔ ((x.enabled ≡ true) × (x.thread_id ≡ k))

name_cases : (m n : List ℕ) → (m ≡ n) ⊎ (m ≢ n)
name_cases m n = elim (Bool-cases (str_eq m n)) [
  | inl e ↦ inl (str_eq_sound m n e)
  | inr e ↦ inr (λ q. differ e (ap (str_eq m) q))
]
  where
    differ : str_eq m n ≡ false → str_eq m m ≡ str_eq m n → ⊥
    differ e q = absurd (ground (arith, str_eq_refl m))

-- One pipeline `p`, found under `name`, becomes `f p`, and thread `id` has the data `td`.
module _ (w : World) (c : IsConsistent w) (id : ℕ) (name : List ℕ) (p : Pipeline)
    (found : lookup name w ≡ some p) (f : Pipeline → Pipeline) (keeps : KeepsName f)
    (keeps_p : (x : Pipeline) → (f x).p ≡ x.p) (td : ThreadData) where
  abbrev pub changed : World
  changed = (commit id name f w (td, done)).0

  -- A pipeline found afterwards is `f p`, or another one that has not changed.
  found_after :
      (n : List ℕ) (x : Pipeline)
      → lookup n changed ≡ some x
      → ((n ≡ name) × (x ≡ f p)) ⊎ ((n ≢ name) × (lookup n w ≡ some x) × (x.p ≢ p.p))
  found_after n x h = elim (name_cases name n) [
    | inl e ↦ inl (
      sym e,
      some-injective _ _ (
          sym h
          ∙ subst (λ m. lookup m changed ≡ some (f p)) e
              (search-update_self name f w.pipelines p keeps found)),
    )
    | inr e ↦
        let old : lookup n w ≡ some x = sym (search-update_ne name n f w.pipelines keeps e) ∙ h in
        inr ((λ q. e (sym q)), old, λ q. e (sym (c.handles n name x p old found q)))
  ]

  -- The pipelines of a consistent world after one change.
  pub changed-IsConsistent :
      IsWell td
      → ((y : ℕ) → y ≢ p.p → IsMapped td y ↔ IsMapped (w.thread_data id) y)
      → ((k : ℕ)
          → IsMapped (write w.thread_data id td k) p.p
            ↔ (((f p).enabled ≡ true) × ((f p).thread_id ≡ k)))
      → IsConsistent changed
  changed-IsConsistent well others own = record {
    wells = λ k. elim (Bool-cases (k == id)) [ inl e ↦ rw e well | inr e ↦ rw e (c.wells k) ];
    handles = λ m n x y a b e. elim (found_after m x a) [
      | inl (m-eq, x-eq) ↦ elim (found_after n y b) [
        | inl (n-eq, y-eq) ↦ m-eq ∙ sym n-eq
        | inr (n-ne, old, other) ↦
            absurd (other (sym e ∙ ap (λ (q : Pipeline). q.p) x-eq ∙ keeps_p p))
      ]
      | inr (m-ne, old, other) ↦ elim (found_after n y b) [
        | inl (n-eq, y-eq) ↦ absurd (other (e ∙ ap (λ (q : Pipeline). q.p) y-eq ∙ keeps_p p))
        | inr (n-ne, old', other') ↦ c.handles m n x y old old' e
      ]
    ];
    mapped = λ n x k h. elim (found_after n x h) [
      | inl (n-eq, x-eq) ↦ mapped_self x k x-eq
      | inr (n-ne, old, other) ↦ mapped_other n x k old other
    ];
  }
    where
      mapped_self :
          (x : Pipeline) (k : ℕ)
          → x ≡ f p
          → IsMapped (write w.thread_data id td k) x.p ↔ ((x.enabled ≡ true) × (x.thread_id ≡ k))
      mapped_self x k e =
          subst
            (λ (q : Pipeline).
              IsMapped (write w.thread_data id td k) q.p ↔ ((q.enabled ≡ true) × (q.thread_id ≡ k)))
            (sym e)
            (subst
              (λ h.
                IsMapped (write w.thread_data id td k) h
                ↔ (((f p).enabled ≡ true) × ((f p).thread_id ≡ k)))
              (sym (keeps_p p)) (own k))

      mapped_other :
          (n : List ℕ) (x : Pipeline) (k : ℕ)
          → lookup n w ≡ some x
          → x.p ≢ p.p
          → IsMapped (write w.thread_data id td k) x.p ↔ ((x.enabled ≡ true) × (x.thread_id ≡ k))
      mapped_other n x k old other = elim (Bool-cases (k == id)) [
        | inl e ↦
            let k-eq : k ≡ id = ground arith in
            let before : IsMapped (w.thread_data id) x.p
                ↔ ((x.enabled ≡ true) × (x.thread_id ≡ k)) =
              subst (λ j. IsMapped (w.thread_data j) x.p ↔ ((x.enabled ≡ true) × (x.thread_id ≡ k)))
                k-eq (c.mapped n x k old) in
            rw e (λ a. before.0 ((others x.p other).0 a), λ b. (others x.p other).1 (before.1 b))
        | inr e ↦ rw e (c.mapped n x k old)
      ]

-- ===== src/Swq/Creates.antt =====
-- Every branch of `swq_create`.
use rids.Prelude.{
  ℕ, refl, Bool, ◌||◌, List, Option, none, some, ◌==◌, arith, Bool-cases, Option-cases, inl, inr,
}
use rids.Registry.{is_some, search_list}
use rids.Registry.Creation.{add_node-Creates, Objects, Creates, IsWell, IsShort, Creates-IsWell}
use rids.Swq.{Swq, SwqParams, swq_create}

-- `swq_create` either changes nothing, with no ring left behind, or adds one queue at the tail under a name that was not in use, with the one new ring as its own.
pub swq_create-Creates :
    (ring : List ℕ → ℕ → ℕ → Option ℕ) (calloc : Bool) (name : Option (List ℕ))
    (params : Option SwqParams) (st : Objects Swq)
    → Creates (λ (x : Swq). x.name) (λ x. x.r) name st (swq_create ring calloc name params st)
unfolding swq_create
swq_create-Creates ring calloc none params st = refl
swq_create-Creates ring calloc (some name) none st = refl
swq_create-Creates ring calloc (some name) (some params) st =
    elim (Bool-cases
      (is_some (search_list (λ (x : Swq). x.name) name st.nodes) || params.size == 0)) [
        | inl e ↦ rw e refl
        | inr e ↦ elim (Option-cases (ring name params.size params.cpu_id)) [
          | inl e' ↦ rw (e, e') refl
          | inr (r, e') ↦
              rw (e, e')
                (add_node-Creates (λ (x : Swq). x.name) (λ x. x.r) calloc name _ st (ground arith)
                  refl)
        ]
      ]

-- A creation under a name that fits keeps the queues well formed: names distinct, and the live
-- rings exactly those of the queues.
pub swq_create-IsWell :
    (ring : List ℕ → ℕ → ℕ → Option ℕ) (calloc : Bool) (name : Option (List ℕ))
    (params : Option SwqParams) (st : Objects Swq)
    → IsShort name
    → IsWell (λ (x : Swq). x.name) (λ x. x.r) st
    → IsWell (λ (x : Swq). x.name) (λ x. x.r) (swq_create ring calloc name params st).0
swq_create-IsWell ring calloc name params st =
    Creates-IsWell (λ (x : Swq). x.name) (λ x. x.r) name st _
      (swq_create-Creates ring calloc name params st)

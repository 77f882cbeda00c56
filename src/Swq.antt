-- ===== src/Swq.antt =====
-- processing/dpdk_pipeline/swq.c and swq.h: software queues, each over a ring of DPDK.
pub mod Creates
use rids.Prelude.{ℕ, Bool, true, false, ◌||◌, List, Option, none, some, ◌==◌, if◌then◌else◌}
use rids.Registry.{is_some, stored_name, find, insert_tail}
use rids.Registry.Resources.{acquire, release}
use rids.Registry.Creation.{add_node, Objects, empty}

pub record SwqParams : Type 0 where
  pub size : ℕ
  pub cpu_id : ℕ

pub record Swq : Type 0 where
  pub name : List ℕ
  pub r : ℕ

abbrev pub swq_init : Objects Swq
swq_init = empty

unfoldable pub swq_find : Option (List ℕ) → List Swq → Option Swq
unfolding find
swq_find = find (λ swq. swq.name)

-- `rte_ring_create` takes the name, the size and the socket; its flags are always
-- RING_F_SP_ENQ | RING_F_SC_DEQ. `calloc` tells whether the node is allocated.
unfoldable pub swq_create :
    (List ℕ → ℕ → ℕ → Option ℕ)
    → Bool
    → Option (List ℕ)
    → Option SwqParams
    → Objects Swq
    → Objects Swq × Option Swq
unfolding swq_find add_node
swq_create rte_ring_create calloc none params st = (st, none)
swq_create rte_ring_create calloc (some name) none st = (st, none)
swq_create rte_ring_create calloc (some name) (some params) st =
    if is_some (swq_find (some name) st.nodes) || params.size == 0
    then (st, none)
    else elim (rte_ring_create name params.size params.cpu_id) [
      | none ↦ (st, none)
      | some r ↦ add_node calloc r (record { name = stored_name name; r = r }) st
    ]

-- ===== src/Mempool/Creates.antt =====
-- Every branch of `mempool_create`.
use rids.Prelude.{
  ℕ, ◌-◌, refl, Bool, ◌||◌, List, Option, none, some, ltb, ◌==◌, arith, Bool-cases, Option-cases,
  inl, inr,
}
use rids.Registry.{is_some, search_list}
use rids.Registry.Creation.{Objects, Creates, IsWell, IsShort, add_node-Creates, Creates-IsWell}
use rids.Mempool.{Mempool, MempoolParams, MbufPools, buffer_size_min, mempool_create}

-- `mempool_create` either changes nothing, with no pool of DPDK left behind, or adds one pool at the
-- tail under a name that was not in use, with the one new pool of DPDK as its own.
pub mempool_create-Creates :
    (dpdk : MbufPools) (calloc : Bool) (name : Option (List ℕ)) (params : Option MempoolParams)
    (st : Objects Mempool)
    → Creates
        (λ (x : Mempool). x.name)
        (λ x. x.m)
        name
        st
        (mempool_create dpdk calloc name params st)
unfolding mempool_create
mempool_create-Creates dpdk calloc none params st = refl
mempool_create-Creates dpdk calloc (some name) none st = refl
mempool_create-Creates dpdk calloc (some name) (some params) st =
    elim (Bool-cases (
      is_some (search_list (λ (x : Mempool). x.name) name st.nodes)
      || ltb params.buffer_size (buffer_size_min dpdk)
      || params.pool_size == 0)) [
        | inl e ↦ rw e refl
        | inr e ↦
            elim (Option-cases (
              dpdk.pool_create name params.pool_size params.cache_size
                (params.buffer_size - dpdk.sizeof_rte_mbuf) params.cpu_id)) [
                  | inl e' ↦ rw (e, e') refl
                  | inr (m, e') ↦
                      rw (e, e')
                        (add_node-Creates (λ (x : Mempool). x.name) (λ x. x.m) calloc name _ st
                          (ground arith) refl)
                ]
      ]

-- A creation under a name that fits keeps the pools well formed: names distinct, and the live pools
-- of DPDK exactly those of the list.
pub mempool_create-IsWell :
    (dpdk : MbufPools) (calloc : Bool) (name : Option (List ℕ)) (params : Option MempoolParams)
    (st : Objects Mempool)
    → IsShort name
    → IsWell (λ (x : Mempool). x.name) (λ x. x.m) st
    → IsWell (λ (x : Mempool). x.name) (λ x. x.m) (mempool_create dpdk calloc name params st).0
mempool_create-IsWell dpdk calloc name params st =
    Creates-IsWell (λ (x : Mempool). x.name) (λ x. x.m) name st _
      (mempool_create-Creates dpdk calloc name params st)

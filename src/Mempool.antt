-- ===== src/Mempool.antt =====
-- processing/dpdk_pipeline/mempool.c and mempool.h: pools of packet buffers.
pub mod Creates
use rids.Prelude.{
  ℕ, ◌-◌, ◌+◌, Bool, true, false, ◌||◌, List, Option, none, some, ltb, ◌==◌, if◌then◌else◌,
}
use rids.Registry.{is_some, stored_name, find}
use rids.Registry.Creation.{Objects, add_node, empty}

pub record MempoolParams : Type 0 where
  pub buffer_size : ℕ
  pub pool_size : ℕ
  pub cache_size : ℕ
  pub cpu_id : ℕ

pub record Mempool : Type 0 where
  pub name : List ℕ
  pub m : ℕ
  pub buffer_size : ℕ

abbrev pub mempool_init : Objects Mempool
mempool_init = empty

unfoldable pub mempool_find : Option (List ℕ) → List Mempool → Option Mempool
unfolding find
mempool_find = find (λ mempool. mempool.name)

-- What DPDK defines: sizeof(struct rte_mbuf), RTE_PKTMBUF_HEADROOM, and the creation of a pool from
-- its name, size, cache size, room for the data and socket.
pub record MbufPools : Type 0 where
  pub sizeof_rte_mbuf : ℕ
  pub headroom : ℕ
  pub pool_create : List ℕ → ℕ → ℕ → ℕ → ℕ → Option ℕ

abbrev pub buffer_size_min : MbufPools → ℕ
buffer_size_min dpdk = dpdk.sizeof_rte_mbuf + dpdk.headroom

unfoldable pub mempool_create :
    MbufPools
    → Bool
    → Option (List ℕ)
    → Option MempoolParams
    → Objects Mempool
    → Objects Mempool × Option Mempool
unfolding mempool_find add_node
mempool_create dpdk calloc none params st = (st, none)
mempool_create dpdk calloc (some name) none st = (st, none)
mempool_create dpdk calloc (some name) (some params) st =
    if is_some (mempool_find (some name) st.nodes)
      || ltb params.buffer_size (buffer_size_min dpdk)
      || params.pool_size == 0
    then (st, none)
    else elim (dpdk.pool_create name params.pool_size params.cache_size
        (params.buffer_size - dpdk.sizeof_rte_mbuf) params.cpu_id) [
          | none ↦ (st, none)
          | some m ↦
              add_node calloc m
                (record { name = stored_name name; m = m; buffer_size = params.buffer_size }) st
        ]

-- ===== src/Tests/Objects.antt =====
-- Creations of queues, pools, TAP interfaces and ports of the traffic manager.
use rids.Prelude.{ℕ, refl, List, [], ◌∷◌, Option, some, arith, true}
use rids.Registry.{success}
use rids.Registry.Creation.{IsWell}
use rids.Swq.{Swq, SwqParams, swq_create, swq_init}
use rids.Swq.Creates.{swq_create-IsWell}
use rids.Mempool.{MempoolParams, MbufPools}
use rids.Tap.{Kernel}

-- SWQ0
abbrev swq0 : List ℕ
swq0 = b'S' ∷ b'W' ∷ b'Q' ∷ b'0' ∷ []

abbrev swq_params : SwqParams
swq_params = record { size = 64; cpu_id = 0 }

-- Every ring has the handle 5.
abbrev rings : List ℕ → ℕ → ℕ → Option ℕ
rings name size cpu_id = some 5

swq_create-IsWell_example :
    IsWell
      (λ (x : Swq). x.name)
      (λ x. x.r)
      (swq_create rings true (some swq0) (some swq_params) swq_init).0
swq_create-IsWell_example =
    swq_create-IsWell rings true (some swq0) (some swq_params) swq_init (omega arith)
      (record { unique = tt; stored = tt; owned = refl })

abbrev mempool_params : MempoolParams
mempool_params = record { buffer_size = 2304; pool_size = 32768; cache_size = 256; cpu_id = 0 }

abbrev pools : MbufPools
pools = record {
  sizeof_rte_mbuf = 128;
  headroom = 128;
  pool_create = λ name size cache room socket. some 5;
}

abbrev kernel : Kernel
kernel = record { open_tap = some 3; set_interface = λ fd name. success }

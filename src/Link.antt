-- ===== src/Link.antt =====
-- processing/dpdk_pipeline/link.c and link.h: the links, each over an Ethernet port of DPDK. The live
-- resources are the ports that are started.
pub mod Reta
pub mod Creates
use rids.Prelude.{
  ℕ, zero, suc, ◌+◌, ◌-◌, ◌/◌, ◌%◌, ◌^◌, Bool, true, false, not, ◌&&◌, ◌||◌, List, Option, none,
  some, ltb, leb, ◌==◌, if◌then◌else◌,
}
use rids.Registry.{RteStatus, enotsup, is_some, is_nonzero, is_negative, stored_name, find}
use rids.Registry.Resources.{acquire, release}
use rids.Registry.Creation.{add_node, Objects, empty}
use rids.Mempool.{Mempool, mempool_find}
use rids.Thread.{write}

pub record Link : Type 0 where
  pub name : List ℕ
  pub port_id : ℕ
  pub n_rxq : ℕ
  pub n_txq : ℕ

-- LINK_RXQ_RSS_MAX, ETH_RSS_RETA_SIZE_512 and RTE_RETA_GROUP_SIZE
abbrev pub link_rxq_rss_max : ℕ
link_rxq_rss_max = 16

abbrev pub reta_size_max : ℕ
reta_size_max = 512

abbrev pub reta_group_size : ℕ
reta_group_size = 64

pub record LinkParamsRss : Type 0 where
  pub queue_id : ℕ → ℕ
  pub n_queues : ℕ

pub record LinkParams : Type 0 where
  pub dev_name : Option (List ℕ)
  pub port_id : ℕ
  pub rx_n_queues : ℕ
  pub rx_queue_size : ℕ
  pub mempool_name : Option (List ℕ)
  pub rss : Option LinkParamsRss
  pub tx_n_queues : ℕ
  pub tx_queue_size : ℕ
  pub promiscuous : Bool

-- struct rte_eth_rss_reta_entry64
pub record RetaGroup : Type 0 where
  pub mask : ℕ
  pub reta : ℕ → ℕ

-- The fields of struct rte_eth_dev_info that are read.
pub record DevInfo : Type 0 where
  pub reta_size : ℕ
  pub max_rx_queues : ℕ
  pub flow_type_rss_offloads : ℕ

-- The calls of DPDK; `socket_id` is `none` for SOCKET_ID_ANY. `rss_hf` takes of the offloads of a port
-- those of ETH_RSS_IP, ETH_RSS_TCP and ETH_RSS_UDP; a port without RSS is configured with `none`.
pub record EthApi : Type 0 where
  pub get_port_by_name : List ℕ → Option ℕ
  pub is_valid_port : ℕ → Bool
  pub info_get : ℕ → Option DevInfo
  pub socket_id : ℕ → Option ℕ
  pub rss_hf : ℕ → ℕ
  pub configure : ℕ → ℕ → ℕ → Option ℕ → RteStatus
  pub promiscuous_enable : ℕ → RteStatus
  pub rx_queue_setup : ℕ → ℕ → ℕ → ℕ → ℕ → RteStatus
  pub tx_queue_setup : ℕ → ℕ → ℕ → ℕ → RteStatus
  pub start : ℕ → RteStatus
  pub reta_update : ℕ → (ℕ → RetaGroup) → ℕ → RteStatus
  pub set_link_up : ℕ → RteStatus
  pub link_get : ℕ → Option Bool

abbrev pub link_init : Objects Link
link_init = empty

unfoldable pub link_find : Option (List ℕ) → List Link → Option Link
unfolding find
link_find = find (λ link. link.name)

-- The two loops over `n` entries of the redirection table from entry `i` on.
unfoldable pub set_masks : ℕ → ℕ → (ℕ → RetaGroup) → ℕ → RetaGroup
set_masks zero i reta_conf = reta_conf
set_masks (suc n) i reta_conf =
    let reta_id = i / reta_group_size in
    set_masks n (i + 1) (write reta_conf reta_id (record (reta_conf reta_id) { mask = 2 ^ 64 - 1 }))

unfoldable pub set_queues : ℕ → ℕ → LinkParamsRss → (ℕ → RetaGroup) → ℕ → RetaGroup
set_queues zero i rss reta_conf = reta_conf
set_queues (suc n) i rss reta_conf =
    let reta_id = i / reta_group_size in
    let queue = rss.queue_id (i % rss.n_queues) % 2 ^ 16 in
    set_queues n (i + 1) rss (
      write reta_conf reta_id (record (reta_conf reta_id) {
        reta = write (reta_conf reta_id).reta (i % reta_group_size) queue;
      }))

-- The zeroed table, filled.
unfoldable pub reta_of : ℕ → LinkParamsRss → ℕ → RetaGroup
unfolding set_masks set_queues
reta_of reta_size rss =
    set_queues reta_size 0 rss (set_masks reta_size 0 (λ i. record { mask = 0; reta = λ j. 0 }))

unfoldable pub rss_setup : EthApi → ℕ → ℕ → LinkParamsRss → RteStatus
unfolding reta_of
rss_setup api port_id reta_size rss = api.reta_update port_id (reta_of reta_size rss) reta_size

-- A loop of calls for the queues from `i` on, until one returns a negative status.
unfoldable pub setup_queues : (ℕ → RteStatus) → ℕ → ℕ → Bool
setup_queues setup zero i = true
setup_queues setup (suc n) i =
    let rest = setup_queues setup n (i + 1) in if is_negative (setup i) then false else rest

unfoldable pub queues_exist : LinkParamsRss → ℕ → ℕ → ℕ → Bool
queues_exist rss max_rx_queues zero i = true
queues_exist rss max_rx_queues (suc n) i =
    let rest = queues_exist rss max_rx_queues n (i + 1) in
    if leb max_rx_queues (rss.queue_id i) then false else rest

abbrev pub rss_fits : DevInfo → Option LinkParamsRss → Bool
rss_fits info none = true
rss_fits info (some rss) =
    not (info.reta_size == 0)
    && leb info.reta_size reta_size_max
    && not (rss.n_queues == 0)
    && ltb rss.n_queues link_rxq_rss_max
    && queues_exist rss info.max_rx_queues rss.n_queues 0

abbrev pub port_of : EthApi → LinkParams → Option ℕ
port_of api params = elim params.dev_name [
  | some dev_name ↦ api.get_port_by_name dev_name
  | none ↦ if api.is_valid_port params.port_id then some params.port_id else none
]

abbrev pub cpu_of : EthApi → ℕ → ℕ
cpu_of api port_id = elim (api.socket_id port_id) [ none ↦ 0 | some cpu_id ↦ cpu_id ]

abbrev pub hash_of : EthApi → DevInfo → Option LinkParamsRss → Option ℕ
hash_of api info none = none
hash_of api info (some rss) = some (api.rss_hf info.flow_type_rss_offloads)

-- The calls up to rte_eth_dev_start.
unfoldable pub start_port : EthApi → LinkParams → DevInfo → ℕ → ℕ → Bool
unfolding setup_queues
start_port api params info m port_id =
    not (
      is_negative
        (api.configure port_id params.rx_n_queues params.tx_n_queues (hash_of api info params.rss)))
    && (not params.promiscuous || not (is_nonzero (api.promiscuous_enable port_id)))
    && setup_queues (λ i. api.rx_queue_setup port_id i params.rx_queue_size (cpu_of api port_id) m)
        params.rx_n_queues 0
    && setup_queues (λ i. api.tx_queue_setup port_id i params.tx_queue_size (cpu_of api port_id))
        params.tx_n_queues 0
    && not (is_negative (api.start port_id))

abbrev pub rss_refused : EthApi → DevInfo → ℕ → Option LinkParamsRss → Bool
rss_refused api info port_id none = false
rss_refused api info port_id (some rss) = is_nonzero (rss_setup api port_id info.reta_size rss)

abbrev pub link_up_refused : RteStatus → Bool
link_up_refused enotsup = false
link_up_refused status = is_negative status

-- From the start of the port on.
unfoldable pub add_link :
    EthApi → Bool → List ℕ → LinkParams → DevInfo → ℕ → Objects Link → Objects Link × Option Link
unfolding rss_setup add_node release
add_link api calloc name params info port_id st =
    if rss_refused api info port_id params.rss || link_up_refused (api.set_link_up port_id)
    then (record st { live = release port_id (acquire port_id st.live) }, none)
    else add_node calloc port_id
        (record {
          name = stored_name name;
          port_id = port_id;
          n_rxq = params.rx_n_queues;
          n_txq = params.tx_n_queues;
        })
        st

unfoldable pub link_create :
    EthApi
    → Bool
    → Option (List ℕ)
    → Option LinkParams
    → List Mempool
    → Objects Link
    → Objects Link × Option Link
unfolding link_find mempool_find start_port add_link
link_create api calloc none params mempools st = (st, none)
link_create api calloc (some name) none mempools st = (st, none)
link_create api calloc (some name) (some params) mempools st =
    if is_some (link_find (some name) st.nodes)
      || params.rx_n_queues == 0
      || params.rx_queue_size == 0
      || params.tx_n_queues == 0
      || params.tx_queue_size == 0
    then (st, none)
    else elim (port_of api params) [
      | none ↦ (st, none)
      | some port_id ↦ elim (api.info_get port_id) [
        | none ↦ (st, none)
        | some info ↦ elim (mempool_find params.mempool_name mempools) [
          | none ↦ (st, none)
          | some mempool ↦
              if rss_fits info params.rss && start_port api params info mempool.m port_id
              then add_link api calloc name params info port_id st
              else (st, none)
        ]
      ]
    ]

-- 1 or 0; `link_get` gives whether the link is up.
unfoldable pub link_is_up : EthApi → Option (List ℕ) → List Link → Bool
unfolding link_find
link_is_up api name links = elim (link_find name links) [
  | none ↦ false
  | some link ↦ elim (api.link_get link.port_id) [ none ↦ false | some up ↦ up ]
]

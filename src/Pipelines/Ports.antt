-- ===== src/Pipelines/Ports.antt =====
-- pipeline.c: the ports of a pipeline, `pipeline_port_in_create`, `pipeline_port_out_create` and
-- `pipeline_port_in_connect_to_table`, on the devices of link.c, kni.c, cryptodev.c and of the
-- modelled lists. The pipeline is the one that `pipeline_find` has found.
use rids.Prelude.{
  ℕ, ◌+◌, ◌-◌, ◌^◌, ◌%◌, Bool, true, false, ◌||◌, List, [], Option, none, some, leb, ltb, ◌==◌,
  if◌then◌else◌,
}
use rids.Registry.{RteStatus, success, negative, is_nonzero, find}
use rids.Registry.Resources.{acquire, release}
use rids.Swq.{Swq, swq_find}
use rids.Link.{Link, link_find}
use rids.Tap.{Tap, tap_find}
use rids.Mempool.{Mempool, mempool_find}
use rids.Tmgr.{TmgrPort, tmgr_port_find}
use rids.Action.PortIn.{PortInActionProfile, port_in_action_profile_find}
pub mod Creation
pub mod Devices
pub mod Inputs

pub record Kni : Type 0 where
  pub name : List ℕ
  pub k : ℕ

pub record Cryptodev : Type 0 where
  pub name : List ℕ
  pub dev_id : ℕ
  pub n_queues : ℕ

unfoldable pub kni_find : Option (List ℕ) → List Kni → Option Kni
unfolding find
kni_find = find (λ kni. kni.name)

unfoldable pub cryptodev_find : Option (List ℕ) → List Cryptodev → Option Cryptodev
unfolding find
cryptodev_find = find (λ cryptodev. cryptodev.name)

-- The lists of devices.
pub record DeviceLists : Type 0 where
  pub links : List Link
  pub swqs : List Swq
  pub tmgr_ports : List TmgrPort
  pub taps : List Tap
  pub mempools : List Mempool
  pub knis : List Kni
  pub cryptodevs : List Cryptodev

-- struct port_in_params by type; the file name and the callback are passed on.
pub data PortInType : Type 0 where
  in_rxq : (queue_id : ℕ) → PortInType
  in_swq in_tmgr in_kni : PortInType
  in_tap : (mempool_name : Option (List ℕ)) → (mtu : ℕ) → PortInType
  in_source : (mempool_name file_name : Option (List ℕ)) → (n_bytes_per_pkt : ℕ) → PortInType
  in_cryptodev : (queue_id f_callback arg_callback : ℕ) → PortInType

pub record PortInParams : Type 0 where
  pub type : PortInType
  pub dev_name : Option (List ℕ)
  pub burst_size : ℕ
  pub action_profile_name : Option (List ℕ)

-- p.ops and p.arg_create of a reader.
pub data Reader : Type 0 where
  ethdev_reader : (port_id queue_id : ℕ) → Reader
  ring_reader : (ring : ℕ) → Reader
  sched_reader : (sched : ℕ) → Reader
  fd_reader : (fd mempool mtu : ℕ) → Reader
  kni_reader : (kni : ℕ) → Reader
  source_reader : (mempool : ℕ) → Option (List ℕ) → (n_bytes_per_pkt : ℕ) → Reader
  sym_crypto_reader : (cryptodev_id queue_id f_callback arg_callback : ℕ) → Reader

-- The switch of pipeline_port_in_create; `none` is the result -1. `cryptodev->n_queues - 1` is of 32
-- bits.
unfoldable pub reader : DeviceLists → PortInParams → PortInType → Option Reader
unfolding link_find swq_find tmgr_port_find tap_find mempool_find kni_find cryptodev_find
reader d params (in_rxq queue_id) = elim (link_find params.dev_name d.links) [
  | none ↦ none
  | some link ↦ if leb link.n_rxq queue_id then none else some (ethdev_reader link.port_id queue_id)
]
reader d params in_swq = elim (swq_find params.dev_name d.swqs) [
  | none ↦ none
  | some swq ↦ some (ring_reader swq.r)
]
reader d params in_tmgr = elim (tmgr_port_find params.dev_name d.tmgr_ports) [
  | none ↦ none
  | some tmgr_port ↦ some (sched_reader tmgr_port.s)
]
reader d params (in_tap mempool_name mtu) = elim (tap_find params.dev_name d.taps) [
  | none ↦ none
  | some tap ↦ elim (mempool_find mempool_name d.mempools) [
    | none ↦ none
    | some mempool ↦ some (fd_reader tap.fd mempool.m mtu)
  ]
]
reader d params in_kni = elim (kni_find params.dev_name d.knis) [
  | none ↦ none
  | some kni ↦ some (kni_reader kni.k)
]
reader d params (in_source mempool_name file_name n_bytes_per_pkt) =
    elim (mempool_find mempool_name d.mempools) [
      | none ↦ none
      | some mempool ↦ some (source_reader mempool.m file_name n_bytes_per_pkt)
    ]
reader d params (in_cryptodev queue_id f_callback arg_callback) =
    elim (cryptodev_find params.dev_name d.cryptodevs) [
      | none ↦ none
      | some cryptodev ↦
          if ltb ((cryptodev.n_queues + (2 ^ 32 - 1)) % 2 ^ 32) queue_id
          then none
          else some (sym_crypto_reader cryptodev.dev_id queue_id f_callback arg_callback)
    ]

-- struct port_out_params by type.
pub data PortOutType : Type 0 where
  out_txq : (queue_id : ℕ) → PortOutType
  out_swq out_tmgr out_tap out_kni : PortOutType
  out_sink : (file_name : Option (List ℕ)) → (max_n_pkts : ℕ) → PortOutType
  out_cryptodev : (queue_id op_offset : ℕ) → PortOutType

pub record PortOutParams : Type 0 where
  pub type : PortOutType
  pub dev_name : Option (List ℕ)
  pub burst_size : ℕ
  pub retry : ℕ
  pub n_retries : ℕ

-- What a writer does with packets that the device does not take: `pp`, or `pp_nodrop` with n_retries.
pub data Retry : Type 0 where
  drop : Retry
  nodrop : (n_retries : ℕ) → Retry

-- p.ops and p.arg_create of a writer, with tx_burst_sz.
pub data Writer : Type 0 where
  ethdev_writer : (port_id queue_id tx_burst_sz : ℕ) → Retry → Writer
  ring_writer : (ring tx_burst_sz : ℕ) → Retry → Writer
  sched_writer : (sched tx_burst_sz : ℕ) → Writer
  fd_writer : (fd tx_burst_sz : ℕ) → Retry → Writer
  kni_writer : (kni tx_burst_sz : ℕ) → Retry → Writer
  sink : Option (List ℕ) → (max_n_pkts : ℕ) → Writer
  sym_crypto_writer : (cryptodev_id queue_id tx_burst_sz crypto_op_offset : ℕ) → Retry → Writer

abbrev pub retry_of : PortOutParams → ℕ → Retry
retry_of params n_retries = if params.retry == 0 then drop else nodrop n_retries

-- The switch of pipeline_port_out_create. The n_retries of a crypto device is `params->retry`.
unfoldable pub writer : DeviceLists → PortOutParams → PortOutType → Option Writer
unfolding link_find swq_find tmgr_port_find tap_find kni_find cryptodev_find
writer d params (out_txq queue_id) = elim (link_find params.dev_name d.links) [
  | none ↦ none
  | some link ↦
      if leb link.n_txq queue_id
      then none
      else some
          (ethdev_writer link.port_id queue_id params.burst_size (retry_of params params.n_retries))
]
writer d params out_swq = elim (swq_find params.dev_name d.swqs) [
  | none ↦ none
  | some swq ↦ some (ring_writer swq.r params.burst_size (retry_of params params.n_retries))
]
writer d params out_tmgr = elim (tmgr_port_find params.dev_name d.tmgr_ports) [
  | none ↦ none
  | some tmgr_port ↦ some (sched_writer tmgr_port.s params.burst_size)
]
writer d params out_tap = elim (tap_find params.dev_name d.taps) [
  | none ↦ none
  | some tap ↦ some (fd_writer tap.fd params.burst_size (retry_of params params.n_retries))
]
writer d params out_kni = elim (kni_find params.dev_name d.knis) [
  | none ↦ none
  | some kni ↦ some (kni_writer kni.k params.burst_size (retry_of params params.n_retries))
]
writer d params (out_sink file_name max_n_pkts) = some (sink file_name max_n_pkts)
writer d params (out_cryptodev queue_id op_offset) =
    elim (cryptodev_find params.dev_name d.cryptodevs) [
      | none ↦ none
      | some cryptodev ↦
          if leb cryptodev.n_queues queue_id
          then none
          else some (
              sym_crypto_writer cryptodev.dev_id queue_id params.burst_size op_offset
                (retry_of params params.retry))
    ]

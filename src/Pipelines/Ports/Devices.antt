-- ===== src/Pipelines/Ports/Devices.antt =====
-- The devices that the ports of a pipeline read from and write to.
use rids.Prelude.{ℕ, ◌≤◌, ◌+◌, ◌<◌, ◌≡◌, ◌⊎◌, false, some}
use rids.Registry.{RteStatus, success, negative, is_nonzero}
use rids.Swq.{Swq, swq_find}
use rids.Tap.{Tap, tap_find}
use rids.Tmgr.{TmgrPort, tmgr_port_find}
use rids.Link.{Link, link_find}
use rids.Pipelines.Ports.{
  Kni, Cryptodev, kni_find, cryptodev_find, DeviceLists, PortOutType, out_txq, out_swq, out_tmgr,
  out_tap, out_kni, out_sink, out_cryptodev, PortOutParams, Writer, Retry, drop, nodrop,
  ethdev_writer, ring_writer, sched_writer, fd_writer, kni_writer, sink, sym_crypto_writer,
}
use rids.Pipelines.Ports.Creation.{Ports, PortApi}

-- What the parameters say of packets that the device does not take, with `n` retries.
abbrev pub IsRetry : PortOutParams → ℕ → Retry → Type 0
IsRetry params n drop = params.retry ≡ 0
IsRetry params n (nodrop n_retries) = (1 ≤ params.retry) × (n_retries ≡ n)

-- The writer of a type of ports: to the device of the parameters' name in the list of this type, to a
-- queue that it has, with the burst size; or a sink with the file and the number of packets.
abbrev pub WritesTo : DeviceLists → PortOutParams → PortOutType → Writer → Type 0
WritesTo d params (out_txq queue_id) w =
    (link : Link) × (retry : Retry) × (link_find params.dev_name d.links ≡ some link)
    × (queue_id < link.n_txq)
    × IsRetry params params.n_retries retry
    × (w ≡ ethdev_writer link.port_id queue_id params.burst_size retry)
WritesTo d params out_swq w =
    (swq : Swq) × (retry : Retry) × (swq_find params.dev_name d.swqs ≡ some swq)
    × IsRetry params params.n_retries retry
    × (w ≡ ring_writer swq.r params.burst_size retry)
WritesTo d params out_tmgr w =
    (port : TmgrPort) × (tmgr_port_find params.dev_name d.tmgr_ports ≡ some port)
    × (w ≡ sched_writer port.s params.burst_size)
WritesTo d params out_tap w =
    (tap : Tap) × (retry : Retry) × (tap_find params.dev_name d.taps ≡ some tap)
    × IsRetry params params.n_retries retry
    × (w ≡ fd_writer tap.fd params.burst_size retry)
WritesTo d params out_kni w =
    (kni : Kni) × (retry : Retry) × (kni_find params.dev_name d.knis ≡ some kni)
    × IsRetry params params.n_retries retry
    × (w ≡ kni_writer kni.k params.burst_size retry)
WritesTo d params (out_sink file_name max_n_pkts) w = w ≡ sink file_name max_n_pkts
WritesTo d params (out_cryptodev queue_id op_offset) w =
    (cryptodev : Cryptodev) × (retry : Retry) × (cryptodev_find params.dev_name d.cryptodevs
      ≡ some cryptodev)
    × (queue_id < cryptodev.n_queues)
    × IsRetry params params.retry retry
    × (w ≡ sym_crypto_writer cryptodev.dev_id queue_id params.burst_size op_offset retry)

module _ {C T : Type 0} (api : PortApi T) where
  -- What a call does to the number of output ports, and what it has DPDK create.
  abbrev pub CreatesPortOut :
      DeviceLists → PortOutParams → Ports C T → Ports C T × RteStatus → Type 0
  CreatesPortOut d params before (after, status) =
      ((status ≡ negative) × (after.n_ports_out ≡ before.n_ports_out))
      ⊎ ((status ≡ success)
          × (after.n_ports_out ≡ before.n_ports_out + 1)
          × (w : Writer) × WritesTo d params params.type w
          × (after.lower ≡ (api.port_out_create before.lower before.p w).0)
          × (is_nonzero (api.port_out_create before.lower before.p w).1 ≡ false))

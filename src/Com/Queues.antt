-- ===== src/Com/Queues.antt =====
-- driver/src/comport.c, GcomComEvtIoctl: what is queued, purged, counted and sent out of turn.
pub mod Purging
use ghostcom.Base.{ℕ, true, false, bit_and, bit_or, if◌then◌else◌, List, [], ◌∷◌, ◌++◌}
use ghostcom.Status.{success}
use ghostcom.Bytes.{put32, get32}
use ghostcom.Ring.{Ring, read_available, write, flush}
use ghostcom.Wdf.{Wdf, Completion, complete}
use ghostcom.Pair.{PortPair, PerfStats}
use ghostcom.Ntddser.{purge_txabort, purge_rxabort, purge_txclear, purge_rxclear}
use ghostcom.Drain.{drain_peer}
use ghostcom.Buffers.{with_input, with_output}
use ghostcom.Com.Lines.{is_set}
use ghostcom.Com.Waits.{purge_queue}

module _ (wdf : Wdf) where
  open wdf use {Request, Queue}

  -- IOCTL_SERIAL_GET_COMMSTATUS. SERIAL_STATUS is zeroed but for two of its counts.
  unfoldable pub get_commstatus :
      PortPair Queue → Request → PortPair Queue × List (Completion Request)
  get_commstatus pp request =
      with_output wdf
        (put32 0 (
          put32 0 (
            put32 (read_available pp.companion_to_com)
              (put32 (read_available pp.com_to_companion) (put32 0 [])))))
        pp request

  -- What the flags of IOCTL_SERIAL_PURGE do to the pair.
  unfoldable pub purged : PortPair Queue → ℕ → PortPair Queue
  purged pp flags = record pp {
    com_write_queue =
        if is_set (bit_and flags purge_txabort)
        then purge_queue wdf pp.com_write_queue
        else pp.com_write_queue;
    com_read_queue =
        if is_set (bit_and flags purge_rxabort)
        then purge_queue wdf pp.com_read_queue
        else pp.com_read_queue;
    com_to_companion =
        if is_set (bit_and flags purge_txclear)
        then flush pp.com_to_companion
        else pp.com_to_companion;
    companion_to_com =
        if is_set (bit_and flags purge_rxclear)
        then flush pp.companion_to_com
        else pp.companion_to_com;
  }

  -- IOCTL_SERIAL_PURGE
  unfoldable pub serial_purge :
      PortPair Queue → Request → PortPair Queue × List (Completion Request)
  serial_purge pp request =
      with_input wdf 4 (λ bytes. (purged pp (get32 bytes 0), complete request success ∷ [])) pp
        request

  -- IOCTL_SERIAL_GET_STATS
  unfoldable pub get_stats : PortPair Queue → Request → PortPair Queue × List (Completion Request)
  get_stats pp request =
      let s = pp.perf_stats in
      with_output wdf
        (put32 s.received_count (
          put32 s.transmitted_count (
            put32 s.frame_error_count (
              put32 s.serial_overrun_error_count
                (put32 s.buffer_overrun_error_count (put32 s.parity_error_count []))))))
        pp request

  abbrev no_stats : PerfStats
  no_stats = record {
    received_count = 0;
    transmitted_count = 0;
    frame_error_count = 0;
    serial_overrun_error_count = 0;
    buffer_overrun_error_count = 0;
    parity_error_count = 0;
  }

  -- IOCTL_SERIAL_CLEAR_STATS
  unfoldable pub clear_stats : PortPair Queue → Request → PortPair Queue × List (Completion Request)
  clear_stats pp request = (record pp { perf_stats = no_stats }, complete request success ∷ [])

  -- IOCTL_SERIAL_IMMEDIATE_CHAR
  unfoldable pub immediate_char :
      PortPair Queue → Request → PortPair Queue × List (Completion Request)
  immediate_char pp request =
      with_input wdf 1
        (λ bytes.
          let (n, ring) = write pp.com_to_companion bytes 1 in
          let (ring', reads, done) = drain_peer wdf ring pp.comp_read_queue in
          (
            record pp { com_to_companion = ring'; comp_read_queue = reads },
            done ++ (complete request success ∷ []),
          ))
        pp request

  -- IOCTL_SERIAL_CONFIG_SIZE
  unfoldable pub config_size : PortPair Queue → Request → PortPair Queue × List (Completion Request)
  config_size pp request = with_output wdf (put32 0 []) pp request

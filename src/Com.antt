-- ===== src/Com.antt =====
-- driver/src/comport.c: GcomComEvtRead and GcomComEvtWrite. The file's port pair is there, since a
-- file whose creation failed gets no requests. `none` is a NULL queue handle in use.
pub mod Reading
pub mod Writing
pub mod Settings
pub mod Lines
pub mod Waits
pub mod Queues
pub mod Ioctl
pub mod Device
use ghostcom.Base.{ℕ, Bool, true, false, not, ◌&&◌, Option, none, some, List, [], ◌∷◌, ◌++◌, min}
use ghostcom.Base.{ltb, ◌==◌, if◌then◌else◌, length}
use ghostcom.Status.{nt_success, success, device_not_connected}
use ghostcom.Word.{add32, ulong}
use ghostcom.Ring.{Ring, read, write, is_empty}
use ghostcom.Wdf.{Wdf, Completion, complete, complete_count, complete_bytes}
use ghostcom.Drain.{drain_peer}
use ghostcom.Transfer.{pend, put_back, unblock}
use ghostcom.Pair.{PortPair, Timeouts}
use ghostcom.Ntddser.{ev_txempty}
use ghostcom.Signal.{check_wait_mask}

abbrev pub max_dword : ℕ
max_dword = 0xFFFFFFFF

-- The test for a read that must return immediately.
abbrev pub returns_at_once : Timeouts → Bool
returns_at_once t =
    t.read_interval_timeout == max_dword
    && (t.read_total_timeout_multiplier == 0 && t.read_total_timeout_constant == 0)

module _ (wdf : Wdf) where
  open wdf use {Request, Queue, output_buffer, input_buffer}

  -- What the handler does on an active pair.
  unfoldable pub com_read_active :
      PortPair Queue → Request → ℕ → Option (PortPair Queue × List (Completion Request))
  com_read_active pp request len =
      let (st, output_len) = output_buffer request 1 in
      elim (nt_success st) [
        | false ↦ some (pp, complete request st ∷ [])
        | true ↦
            let (n, bytes, ring) = read pp.companion_to_com (ulong (min output_len len)) in
            elim (ltb 0 n) [
              | true ↦
                  let (ring', writes, reads, done) =
                    unblock wdf ring pp.comp_write_queue pp.com_read_queue in
                  some (
                    record pp {
                      companion_to_com = ring';
                      com_read_queue = reads;
                      comp_write_queue = writes;
                      perf_stats = record (pp.perf_stats) {
                        received_count = add32 pp.perf_stats.received_count n;
                      };
                    },
                    done ++ (complete_bytes request success n bytes ∷ []),
                  )
              | false ↦ elim (returns_at_once pp.timeouts) [
                | true ↦ some (pp, complete_count request success 0 ∷ [])
                | false ↦
                    put_back wdf (λ queue. record pp { com_read_queue = queue })
                      (pend wdf request pp.com_read_queue)
              ]
            ]
      ]

  -- GcomComEvtRead
  unfoldable pub com_evt_read :
      PortPair Queue → Request → ℕ → Option (PortPair Queue × List (Completion Request))
  com_evt_read pp request len =
      if pp.active
      then com_read_active pp request len
      else some (pp, complete request device_not_connected ∷ [])

  -- What the handler does on an active pair.
  unfoldable pub com_write_active :
      PortPair Queue → Request → ℕ → Option (PortPair Queue × List (Completion Request))
  com_write_active pp request len =
      let (st, input) = input_buffer request 1 in
      elim (nt_success st) [
        | false ↦ some (pp, complete request st ∷ [])
        | true ↦
            let (n, ring) = write pp.com_to_companion input (ulong (min (length input) len)) in
            elim (ltb 0 n) [
              | true ↦
                  let (ring', reads, done) = drain_peer wdf ring pp.comp_read_queue in
                  let after = record pp {
                    com_to_companion = ring';
                    comp_read_queue = reads;
                    perf_stats = record (pp.perf_stats) {
                      transmitted_count = add32 pp.perf_stats.transmitted_count n;
                    };
                  } in
                  let (after', events) =
                    if is_empty ring' then check_wait_mask wdf after ev_txempty else (after, []) in
                  some (after', (done ++ (complete_count request success n ∷ [])) ++ events)
              | false ↦
                  put_back wdf (λ queue. record pp { com_write_queue = queue })
                    (pend wdf request pp.com_write_queue)
            ]
      ]

  -- GcomComEvtWrite
  unfoldable pub com_evt_write :
      PortPair Queue → Request → ℕ → Option (PortPair Queue × List (Completion Request))
  com_evt_write pp request len =
      if pp.active
      then com_write_active pp request len
      else some (pp, complete request device_not_connected ∷ [])

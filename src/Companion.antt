-- ===== src/Companion.antt =====
-- driver/src/companion.c: GcomCompEvtRead and GcomCompEvtWrite. The file's port pair is there, since
-- a file whose creation failed gets no requests. `none` is a NULL queue handle in use.
pub mod Reading
pub mod Writing
pub mod Signals
pub mod Device
use ghostcom.Base.{ℕ, Bool, true, false, not, Option, none, some, List, [], ◌∷◌, ◌++◌, min}
use ghostcom.Base.{ltb, if◌then◌else◌, length}
use ghostcom.Status.{nt_success, success, device_not_connected}
use ghostcom.Word.{ulong}
use ghostcom.Ring.{Ring, read, write}
use ghostcom.Wdf.{Wdf, Completion, complete, complete_count, complete_bytes}
use ghostcom.Drain.{drain_peer}
use ghostcom.Transfer.{pend, put_back, unblock}
use ghostcom.Pair.{PortPair}
use ghostcom.Ntddser.{ev_rxchar}
use ghostcom.Signal.{check_wait_mask}

module _ (wdf : Wdf) where
  open wdf use {Request, Queue, output_buffer, input_buffer}

  -- What the handler does on an active pair.
  unfoldable pub comp_read_active :
      PortPair Queue → Request → ℕ → Option (PortPair Queue × List (Completion Request))
  comp_read_active pp request len =
      let (st, output_len) = output_buffer request 1 in
      elim (nt_success st) [
        | false ↦ some (pp, complete request st ∷ [])
        | true ↦
            let (n, bytes, ring) = read pp.com_to_companion (ulong (min output_len len)) in
            elim (ltb 0 n) [
              | true ↦
                  let (ring', writes, reads, done) =
                    unblock wdf ring pp.com_write_queue pp.comp_read_queue in
                  some (
                    record pp {
                      com_to_companion = ring';
                      com_write_queue = writes;
                      comp_read_queue = reads;
                    },
                    done ++ (complete_bytes request success n bytes ∷ []),
                  )
              | false ↦
                  put_back wdf (λ queue. record pp { comp_read_queue = queue })
                    (pend wdf request pp.comp_read_queue)
            ]
      ]

  -- GcomCompEvtRead
  unfoldable pub comp_evt_read :
      PortPair Queue → Request → ℕ → Option (PortPair Queue × List (Completion Request))
  comp_evt_read pp request len =
      if pp.active
      then comp_read_active pp request len
      else some (pp, complete request device_not_connected ∷ [])

  -- What the handler does on an active pair.
  unfoldable pub comp_write_active :
      PortPair Queue → Request → ℕ → Option (PortPair Queue × List (Completion Request))
  comp_write_active pp request len =
      let (st, input) = input_buffer request 1 in
      elim (nt_success st) [
        | false ↦ some (pp, complete request st ∷ [])
        | true ↦
            let (n, ring) = write pp.companion_to_com input (ulong (min (length input) len)) in
            elim (ltb 0 n) [
              | true ↦
                  let (ring', reads, done) = drain_peer wdf ring pp.com_read_queue in
                  let (after, events) =
                    check_wait_mask wdf
                      (record pp { companion_to_com = ring'; com_read_queue = reads }) ev_rxchar in
                  some (after, (done ++ (complete_count request success n ∷ [])) ++ events)
              | false ↦
                  put_back wdf (λ queue. record pp { comp_write_queue = queue })
                    (pend wdf request pp.comp_write_queue)
            ]
      ]

  -- GcomCompEvtWrite
  unfoldable pub comp_evt_write :
      PortPair Queue → Request → ℕ → Option (PortPair Queue × List (Completion Request))
  comp_evt_write pp request len =
      if pp.active
      then comp_write_active pp request len
      else some (pp, complete request device_not_connected ∷ [])

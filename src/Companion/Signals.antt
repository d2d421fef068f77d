-- ===== src/Companion/Signals.antt =====
-- driver/src/companion.c: GcomCompEvtIoctl and its three operations.
pub mod Crossover
use ghostcom.Base.{
  ℕ, Bool, true, false, not, Option, none, some, bit_or, if◌then◌else◌, ◌==◌, List, [], ◌∷◌, ◌++◌,
}
use ghostcom.Status.{success, device_not_connected, invalid_device_request}
use ghostcom.Bytes.{put32, get32}
use ghostcom.Wdf.{Wdf, Completion, complete}
use ghostcom.Pair.{PortPair, SignalState, signal_bytes}
use ghostcom.Ntddser.{ev_cts, ev_dsr, ev_rlsd}
use ghostcom.Signal.{check_wait_mask}
use ghostcom.Buffers.{with_input, with_output}
use ghostcom.Transfer.{pend, put_back}
use ghostcom.Com.Lines.{is_set}

-- The IOCTL codes of the companion device.
pub data CompIoctl : Type 0 where
  wait_signal_change get_signals set_signals : CompIoctl
  other : ℕ → CompIoctl

-- `a != b` on two BOOLEANs.
abbrev pub differs : Bool → Bool → Bool
differs true b = not b
differs false b = b

-- The modem events of a change of the companion's lines.
unfoldable pub line_events : Bool → Bool → Bool → Bool → ℕ
line_events old_dtr old_rts new_dtr new_rts =
    bit_or (if differs new_rts old_rts then ev_cts else 0)
      (if differs new_dtr old_dtr then bit_or ev_dsr ev_rlsd else 0)

module _ (wdf : Wdf) where
  open wdf use {Request, Queue}

  -- IOCTL_GCOM_WAIT_SIGNAL_CHANGE
  unfoldable pub wait_signal :
      PortPair Queue → Request → Option (PortPair Queue × List (Completion Request))
  wait_signal pp request =
      put_back wdf (λ queue. record pp { signal_wait_queue = queue })
        (pend wdf request pp.signal_wait_queue)

  -- The signal state with the companion's own lines in place of the COM side's.
  abbrev pub own_lines : PortPair Queue → SignalState
  own_lines pp = record (pp.signal_state) {
    dtr_state = if pp.comp_dtr then 1 else 0;
    rts_state = if pp.comp_rts then 1 else 0;
  }

  -- IOCTL_GCOM_GET_SIGNALS
  unfoldable pub get_comp_signals :
      PortPair Queue → Request → PortPair Queue × List (Completion Request)
  get_comp_signals pp request = with_output wdf (signal_bytes (own_lines pp)) pp request

  -- IOCTL_GCOM_SET_SIGNALS
  unfoldable pub set_comp_signals :
      PortPair Queue → Request → PortPair Queue × List (Completion Request)
  set_comp_signals pp request =
      with_input wdf 8
        (λ bytes.
          let new_dtr = is_set (get32 bytes 0) in
          let new_rts = is_set (get32 bytes 4) in
          let events = line_events pp.comp_dtr pp.comp_rts new_dtr new_rts in
          let after = record pp { comp_dtr = new_dtr; comp_rts = new_rts } in
          let (pp', told) =
            if is_set events then check_wait_mask wdf after events else (after, []) in
          (pp', told ++ (complete request success ∷ [])))
        pp request

  -- GcomCompEvtIoctl
  unfoldable pub comp_evt_ioctl :
      PortPair Queue → Request → CompIoctl → Option (PortPair Queue × List (Completion Request))
  comp_evt_ioctl pp request code =
      if pp.active
      then elim code [
        | wait_signal_change ↦ wait_signal pp request
        | get_signals ↦ some (get_comp_signals pp request)
        | set_signals ↦ some (set_comp_signals pp request)
        | other _ ↦ some (pp, complete request invalid_device_request ∷ [])
      ]
      else some (pp, complete request device_not_connected ∷ [])

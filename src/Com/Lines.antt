-- ===== src/Com/Lines.antt =====
-- driver/src/comport.c, GcomComEvtIoctl: the modem lines and the break state.
pub mod Told
use ghostcom.Base.{
  ℕ, Bool, true, false, not, ◌+◌, bit_and, bit_or, ◌==◌, if◌then◌else◌, List, [], ◌∷◌, ◌++◌,
}
use ghostcom.Status.{success}
use ghostcom.Bytes.{put32, get32}
use ghostcom.Wdf.{Wdf, Completion, complete}
use ghostcom.Pair.{PortPair}
use ghostcom.Changed.{changed_dtr, changed_rts, changed_break}
use ghostcom.Ntddser.{ev_break, dtr_line, rts_line, cts_line, dsr_line, dcd_line, mcr_dtr, mcr_rts}
use ghostcom.Signal.{signal_changed, check_wait_mask}
use ghostcom.Buffers.{with_input, with_output}
use ghostcom.Com.Settings.{tell}

-- A ULONG used as a truth value.
abbrev pub is_set : ℕ → Bool
is_set n = not (n == 0)

module _ (wdf : Wdf) where
  open wdf use {Request, Queue}

  -- IOCTL_SERIAL_SET_DTR
  unfoldable pub set_dtr : PortPair Queue → Request → PortPair Queue × List (Completion Request)
  set_dtr pp request = tell wdf pp (record (pp.signal_state) { dtr_state = 1 }) changed_dtr request

  -- IOCTL_SERIAL_CLR_DTR
  unfoldable pub clr_dtr : PortPair Queue → Request → PortPair Queue × List (Completion Request)
  clr_dtr pp request = tell wdf pp (record (pp.signal_state) { dtr_state = 0 }) changed_dtr request

  -- IOCTL_SERIAL_SET_RTS
  unfoldable pub set_rts : PortPair Queue → Request → PortPair Queue × List (Completion Request)
  set_rts pp request = tell wdf pp (record (pp.signal_state) { rts_state = 1 }) changed_rts request

  -- IOCTL_SERIAL_CLR_RTS
  unfoldable pub clr_rts : PortPair Queue → Request → PortPair Queue × List (Completion Request)
  clr_rts pp request = tell wdf pp (record (pp.signal_state) { rts_state = 0 }) changed_rts request

  -- IOCTL_SERIAL_SET_BREAK_ON
  unfoldable pub set_break_on :
      PortPair Queue → Request → PortPair Queue × List (Completion Request)
  set_break_on pp request =
      let state = record (pp.signal_state) { break_state = 1 } in
      let (told_pp, told) = signal_changed wdf (record pp { signal_state = state }) changed_break in
      let (pp', events) = check_wait_mask wdf told_pp ev_break in
      (pp', told ++ (events ++ (complete request success ∷ [])))

  -- IOCTL_SERIAL_SET_BREAK_OFF
  unfoldable pub set_break_off :
      PortPair Queue → Request → PortPair Queue × List (Completion Request)
  set_break_off pp request =
      tell wdf pp (record (pp.signal_state) { break_state = 0 }) changed_break request

  -- The modem status that the COM side sees, by the crossover of a null modem.
  unfoldable pub modem_status : PortPair Queue → ℕ
  modem_status pp =
      bit_or (if pp.comp_dtr then bit_or dsr_line dcd_line else 0)
        (if pp.comp_rts then cts_line else 0)

  -- IOCTL_SERIAL_GET_MODEMSTATUS
  unfoldable pub get_modemstatus :
      PortPair Queue → Request → PortPair Queue × List (Completion Request)
  get_modemstatus pp request = with_output wdf (put32 (modem_status pp) []) pp request

  -- IOCTL_SERIAL_GET_DTRRTS
  unfoldable pub get_dtrrts : PortPair Queue → Request → PortPair Queue × List (Completion Request)
  get_dtrrts pp request =
      let s = pp.signal_state in
      let lines =
        bit_or (if is_set s.dtr_state then dtr_line else 0)
          (if is_set s.rts_state then rts_line else 0) in
      with_output wdf (put32 lines []) pp request

  -- IOCTL_SERIAL_GET_MODEM_CONTROL
  unfoldable pub get_modem_control :
      PortPair Queue → Request → PortPair Queue × List (Completion Request)
  get_modem_control pp request =
      let s = pp.signal_state in
      let lines =
        bit_or (if is_set s.dtr_state then mcr_dtr else 0)
          (if is_set s.rts_state then mcr_rts else 0) in
      with_output wdf (put32 lines []) pp request

  -- IOCTL_SERIAL_SET_MODEM_CONTROL
  unfoldable pub set_modem_control :
      PortPair Queue → Request → PortPair Queue × List (Completion Request)
  set_modem_control pp request =
      with_input wdf 4
        (λ bytes.
          let mcr = get32 bytes 0 in
          tell wdf pp
            (record (pp.signal_state) {
              dtr_state = if is_set (bit_and mcr mcr_dtr) then 1 else 0;
              rts_state = if is_set (bit_and mcr mcr_rts) then 1 else 0;
            })
            (bit_or changed_dtr changed_rts) request)
        pp request

-- ===== src/Com/Ioctl.antt =====
-- driver/src/comport.c: the dispatch of GcomComEvtIoctl.
pub mod Handled
pub mod Waiting
pub mod Once
use ghostcom.Base.{ℕ, Option, some, if◌then◌else◌, List, [], ◌∷◌}
use ghostcom.Status.{success, device_not_connected, invalid_device_request}
use ghostcom.Wdf.{Wdf, Completion, complete}
use ghostcom.Pair.{PortPair}
use ghostcom.Buffers.{with_output}
use ghostcom.Com.Settings.{set_baud_rate, get_baud_rate, set_line_control, get_line_control}
use ghostcom.Com.Settings.{
  set_timeouts, get_timeouts, set_handflow, get_handflow, set_chars, get_chars,
}
use ghostcom.Com.Lines.{set_dtr, clr_dtr, set_rts, clr_rts, set_break_on, set_break_off}
use ghostcom.Com.Lines.{get_modemstatus, get_dtrrts, get_modem_control, set_modem_control}
use ghostcom.Com.Waits.{set_wait_mask, get_wait_mask, wait_on_mask}
use ghostcom.Com.Queues.{
  get_commstatus, serial_purge, get_stats, clear_stats, immediate_char, config_size,
}

-- The IOCTL codes of a COM port, IOCTL_SERIAL_*. `ignored` stands for the six that a virtual port
-- has no hardware for: SET_XOFF, SET_XON, RESET_DEVICE, SET_FIFO_CONTROL, LSRMST_INSERT and
-- XOFF_COUNTER.
pub data ComIoctl : Type 0 where
  baud_set baud_get line_set line_get dtr_set dtr_clr rts_set rts_clr : ComIoctl
  break_on break_off timeouts_set timeouts_get handflow_set handflow_get : ComIoctl
  chars_set chars_get mask_set mask_get mask_wait modemstatus_get : ComIoctl
  commstatus_get properties_get purge_queues queue_size_set dtrrts_get : ComIoctl
  stats_get stats_clear ignored char_immediate config_size_get : ComIoctl
  modem_control_get modem_control_set : ComIoctl
  other : ℕ → ComIoctl

-- `comm_prop` is the SERIAL_COMMPROP that the handler fills in with constants of the WDK.
module _ (wdf : Wdf) (comm_prop : List ℕ) where
  open wdf use {Request, Queue}

  -- The switch of GcomComEvtIoctl on an active pair.
  unfoldable pub com_ioctl_active :
      PortPair Queue → Request → ComIoctl → Option (PortPair Queue × List (Completion Request))
  com_ioctl_active pp request baud_set = some (set_baud_rate wdf pp request)
  com_ioctl_active pp request baud_get = some (get_baud_rate wdf pp request)
  com_ioctl_active pp request line_set = some (set_line_control wdf pp request)
  com_ioctl_active pp request line_get = some (get_line_control wdf pp request)
  com_ioctl_active pp request dtr_set = some (set_dtr wdf pp request)
  com_ioctl_active pp request dtr_clr = some (clr_dtr wdf pp request)
  com_ioctl_active pp request rts_set = some (set_rts wdf pp request)
  com_ioctl_active pp request rts_clr = some (clr_rts wdf pp request)
  com_ioctl_active pp request break_on = some (set_break_on wdf pp request)
  com_ioctl_active pp request break_off = some (set_break_off wdf pp request)
  com_ioctl_active pp request timeouts_set = some (set_timeouts wdf pp request)
  com_ioctl_active pp request timeouts_get = some (get_timeouts wdf pp request)
  com_ioctl_active pp request handflow_set = some (set_handflow wdf pp request)
  com_ioctl_active pp request handflow_get = some (get_handflow wdf pp request)
  com_ioctl_active pp request chars_set = some (set_chars wdf pp request)
  com_ioctl_active pp request chars_get = some (get_chars wdf pp request)
  com_ioctl_active pp request mask_set = some (set_wait_mask wdf pp request)
  com_ioctl_active pp request mask_get = some (get_wait_mask wdf pp request)
  com_ioctl_active pp request mask_wait = wait_on_mask wdf pp request
  com_ioctl_active pp request modemstatus_get = some (get_modemstatus wdf pp request)
  com_ioctl_active pp request commstatus_get = some (get_commstatus wdf pp request)
  com_ioctl_active pp request properties_get = some (with_output wdf comm_prop pp request)
  com_ioctl_active pp request purge_queues = some (serial_purge wdf pp request)
  com_ioctl_active pp request queue_size_set = some (pp, complete request success ∷ [])
  com_ioctl_active pp request dtrrts_get = some (get_dtrrts wdf pp request)
  com_ioctl_active pp request stats_get = some (get_stats wdf pp request)
  com_ioctl_active pp request stats_clear = some (clear_stats wdf pp request)
  com_ioctl_active pp request ignored = some (pp, complete request success ∷ [])
  com_ioctl_active pp request char_immediate = some (immediate_char wdf pp request)
  com_ioctl_active pp request config_size_get = some (config_size wdf pp request)
  com_ioctl_active pp request modem_control_get = some (get_modem_control wdf pp request)
  com_ioctl_active pp request modem_control_set = some (set_modem_control wdf pp request)
  com_ioctl_active pp request (other _) = some (pp, complete request invalid_device_request ∷ [])

  -- GcomComEvtIoctl
  unfoldable pub com_evt_ioctl :
      PortPair Queue → Request → ComIoctl → Option (PortPair Queue × List (Completion Request))
  com_evt_ioctl pp request code =
      if pp.active
      then com_ioctl_active pp request code
      else some (pp, complete request device_not_connected ∷ [])

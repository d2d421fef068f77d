-- ===== src/Com/Ioctl/Once.antt =====
-- What a request of GcomComEvtIoctl leaves alone, and that it is completed once: the dispatch.
use mathlib.Core.List.Perm
use ghostcom.Base.{ℕ, Bool, true, false, none, some, ◌≡◌, ◌≢◌, refl}
use ghostcom.Base.{List, [], ◌∷◌, if◌then◌else◌}
use ghostcom.Status.{device_not_connected}
use ghostcom.Wdf.{Wdf, complete}
use ghostcom.Pair.{PortPair}
use ghostcom.Transfer.{Ends}
use mathlib.Core.Bool.{true≢false}
use ghostcom.Com.Settings.{set_baud_rate, get_baud_rate, set_line_control, get_line_control}
use ghostcom.Com.Settings.{
  set_timeouts, get_timeouts, set_handflow, get_handflow, set_chars, get_chars,
}
use ghostcom.Com.Lines.{set_dtr, clr_dtr, set_rts, clr_rts, set_break_off}
use ghostcom.Com.Lines.{get_modemstatus, get_dtrrts, get_modem_control, set_modem_control}
use ghostcom.Com.Waits.{get_wait_mask}
use ghostcom.Com.Queues.{get_commstatus, get_stats, clear_stats, config_size}
use ghostcom.Com.Ioctl.{ComIoctl, com_ioctl_active, com_evt_ioctl}
use ghostcom.Com.Ioctl.{
  baud_set, baud_get, line_set, line_get, dtr_set, dtr_clr, rts_set, rts_clr, break_on, break_off,
  timeouts_set, timeouts_get, handflow_set, handflow_get, chars_set, chars_get, mask_set, mask_get,
  mask_wait, modemstatus_get, commstatus_get, properties_get, purge_queues, queue_size_set,
  dtrrts_get, stats_get, stats_clear, ignored, char_immediate, config_size_get, modem_control_get,
  modem_control_set, other,
}
use ghostcom.Com.Ioctl.Handled.{IsHandled, answered, with_output-IsHandled, with_input-IsHandled}
use ghostcom.Com.Ioctl.Handled.{tell-IsHandled}
use ghostcom.Com.Ioctl.Waiting.{set_break_on-IsHandled, wait_on_mask-IsHandled}

module _ (wdf : Wdf) where
  open wdf use {Request, Queue}

  -- The requests that purge a queue or move bytes.
  abbrev pub moves : ComIoctl → Bool
  moves mask_set = true
  moves purge_queues = true
  moves char_immediate = true
  moves _ = false

  module _ (comm_prop : List ℕ) (pp : PortPair Queue) (r : Request)
      (there : pp.wait_mask_queue ≢ none) where
    -- On an active pair
    com_ioctl_active-IsHandled :
        (code : ComIoctl)
        → moves code ≡ false
        → Ends (IsHandled wdf pp r) (com_ioctl_active wdf comm_prop pp r code)
    unfolding com_ioctl_active set_baud_rate get_baud_rate set_line_control get_line_control
        set_timeouts get_timeouts set_handflow get_handflow set_chars get_chars set_dtr clr_dtr
        set_rts clr_rts set_break_off get_modemstatus get_dtrrts get_modem_control set_modem_control
        get_wait_mask get_commstatus get_stats clear_stats config_size
    com_ioctl_active-IsHandled baud_set _ =
        with_input-IsHandled wdf pp r _ _ (λ bytes. tell-IsHandled wdf pp r _ _)
    com_ioctl_active-IsHandled baud_get _ = with_output-IsHandled wdf pp r _
    com_ioctl_active-IsHandled line_set _ =
        with_input-IsHandled wdf pp r _ _ (λ bytes. tell-IsHandled wdf pp r _ _)
    com_ioctl_active-IsHandled line_get _ = with_output-IsHandled wdf pp r _
    com_ioctl_active-IsHandled dtr_set _ = tell-IsHandled wdf pp r _ _
    com_ioctl_active-IsHandled dtr_clr _ = tell-IsHandled wdf pp r _ _
    com_ioctl_active-IsHandled rts_set _ = tell-IsHandled wdf pp r _ _
    com_ioctl_active-IsHandled rts_clr _ = tell-IsHandled wdf pp r _ _
    com_ioctl_active-IsHandled break_on _ = set_break_on-IsHandled wdf pp r
    com_ioctl_active-IsHandled break_off _ = tell-IsHandled wdf pp r _ _
    com_ioctl_active-IsHandled timeouts_set _ = with_input-IsHandled wdf pp r _ _ (λ bytes. record {
      kept = refl;
      signals_there = refl;
      masks_there = refl;
      once = Perm.refl _;
    })
    com_ioctl_active-IsHandled timeouts_get _ = with_output-IsHandled wdf pp r _
    com_ioctl_active-IsHandled handflow_set _ =
        with_input-IsHandled wdf pp r _ _ (λ bytes. tell-IsHandled wdf pp r _ _)
    com_ioctl_active-IsHandled handflow_get _ = with_output-IsHandled wdf pp r _
    com_ioctl_active-IsHandled chars_set _ =
        with_input-IsHandled wdf pp r _ _ (λ bytes. tell-IsHandled wdf pp r _ _)
    com_ioctl_active-IsHandled chars_get _ = with_output-IsHandled wdf pp r _
    com_ioctl_active-IsHandled mask_set h = absurd (true≢false h)
    com_ioctl_active-IsHandled mask_get _ = with_output-IsHandled wdf pp r _
    com_ioctl_active-IsHandled mask_wait _ = wait_on_mask-IsHandled wdf pp r there
    com_ioctl_active-IsHandled modemstatus_get _ = with_output-IsHandled wdf pp r _
    com_ioctl_active-IsHandled commstatus_get _ = with_output-IsHandled wdf pp r _
    com_ioctl_active-IsHandled properties_get _ = with_output-IsHandled wdf pp r comm_prop
    com_ioctl_active-IsHandled purge_queues h = absurd (true≢false h)
    com_ioctl_active-IsHandled queue_size_set _ = answered wdf pp r _ refl
    com_ioctl_active-IsHandled dtrrts_get _ = with_output-IsHandled wdf pp r _
    com_ioctl_active-IsHandled stats_get _ = with_output-IsHandled wdf pp r _
    com_ioctl_active-IsHandled stats_clear _ = record {
      kept = refl;
      signals_there = refl;
      masks_there = refl;
      once = Perm.refl _;
    }
    com_ioctl_active-IsHandled ignored _ = answered wdf pp r _ refl
    com_ioctl_active-IsHandled char_immediate h = absurd (true≢false h)
    com_ioctl_active-IsHandled config_size_get _ = with_output-IsHandled wdf pp r _
    com_ioctl_active-IsHandled modem_control_get _ = with_output-IsHandled wdf pp r _
    com_ioctl_active-IsHandled modem_control_set _ =
        with_input-IsHandled wdf pp r _ _ (λ bytes. tell-IsHandled wdf pp r _ _)
    com_ioctl_active-IsHandled (other _) _ = answered wdf pp r _ refl

    -- On a pair whose queue of event waits is there, and for each code but SET_WAIT_MASK,
    -- PURGE and IMMEDIATE_CHAR, GcomComEvtIoctl comes to an end; it leaves alone the rings,
    -- the queues of reads and writes, the active and open flags and the count of
    -- references; and the request, and those that wait for a signal or an event, are each
    -- completed once or wait.
    pub com_evt_ioctl-IsHandled :
        (code : ComIoctl)
        → moves code ≡ false
        → Ends (IsHandled wdf pp r) (com_evt_ioctl wdf comm_prop pp r code)
    unfolding com_evt_ioctl
    com_evt_ioctl-IsHandled code h = go pp.active
      where
        go :
            (b : Bool)
            → Ends (IsHandled wdf pp r) (
                if b
                then com_ioctl_active wdf comm_prop pp r code
                else some (pp, complete r device_not_connected ∷ []))
        go true = com_ioctl_active-IsHandled code h
        go false = answered wdf pp r _ refl

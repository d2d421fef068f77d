-- ===== src/Session/Signals.antt =====
-- The IOCTLs of the companion side keep a pair calm.
use ghostcom.Base.{ℕ, Bool, true, false, refl, arith, either_way}
use ghostcom.Base.{List, [], ◌∷◌, ◌++◌, if◌then◌else◌}
use ghostcom.Status.{success}
use ghostcom.Wdf.{Wdf, Completion, complete}
use ghostcom.Pair.{PortPair}
use ghostcom.Transfer.{Ends, pend}
use ghostcom.Transfer.Steps.{Ends-map, put_back-Ends}
use ghostcom.Signal.{check_wait_mask}
use ghostcom.Com.Ioctl.Handled.{with_output-IsHandled}
use ghostcom.Companion.Signals.{
  CompIoctl, wait_signal_change, get_signals, set_signals, other, wait_signal, get_comp_signals,
  set_comp_signals, comp_evt_ioctl,
}
use ghostcom.Session.Calm.{IsCalm, IsKept, check_wait_mask-IsKept}
use ghostcom.Session.Data.{answered-IsKept}
use ghostcom.Session.Tended.{IsPended, pend-IsPended}
use ghostcom.Session.Told.{with_input_cases, completed-IsKept, IsHandled-IsKept}

module _ (wdf : Wdf) (pp : PortPair wdf.Queue) (calm : IsCalm wdf pp) (request : wdf.Request) where
  open wdf use {Request, Queue, input_buffer}

  abbrev Kept : PortPair Queue × List (Completion Request) → Type 0
  Kept out = IsKept wdf pp (request ∷ []) [] out

  wait_signal-IsKept : Ends Kept (wait_signal wdf pp request)
  unfolding wait_signal
  wait_signal-IsKept = put_back-Ends wdf Kept _ _ (
      Ends-map (pend wdf request pp.signal_wait_queue)
        (λ p (h : IsPended wdf request pp.signal_wait_queue p). record {
          calm = record {
            to_com = calm.to_com;
            to_companion = calm.to_companion;
            com_writes = calm.com_writes;
            comp_writes = calm.comp_writes;
            signals = h.there;
            masks = calm.masks;
          };
          same = refl;
          once = λ weight. omega (arith, h.once weight);
        })
        (pend-IsPended wdf request pp.signal_wait_queue calm.signals))

  -- The companion's lines are set, and the waits of the mask are told, or not.
  lines_set :
      (dtr rts told : Bool) (events : ℕ)
      → let after = record pp { comp_dtr = dtr; comp_rts = rts } in
        let (pp', done) = if told then check_wait_mask wdf after events else (after, []) in
        Kept (pp', done ++ (complete request success ∷ []))
  lines_set dtr rts told events = go told
    where
      after : PortPair Queue
      after = record pp { comp_dtr = dtr; comp_rts = rts }

      untold : IsKept wdf pp [] [] (after, [])
      untold = record {
        calm = record {
          to_com = calm.to_com;
          to_companion = calm.to_companion;
          com_writes = calm.com_writes;
          comp_writes = calm.comp_writes;
          signals = calm.signals;
          masks = calm.masks;
        };
        same = refl;
        once = λ weight. omega arith;
      }

      go :
          (b : Bool)
          → let (pp', done) = if b then check_wait_mask wdf after events else (after, []) in
            Kept (pp', done ++ (complete request success ∷ []))
      go true =
          completed-IsKept wdf pp _ _ (complete request success)
            (check_wait_mask-IsKept wdf after [] events untold)
      go false = completed-IsKept wdf pp _ _ (complete request success) untold

  set_comp_signals-IsKept : Kept (set_comp_signals wdf pp request)
  unfolding set_comp_signals
  set_comp_signals-IsKept =
      with_input_cases wdf pp Kept request 8 _ (λ ok. lines_set _ _ _ _)
        (λ bad. answered-IsKept wdf pp calm request _ refl)

  get_comp_signals-IsKept : Kept (get_comp_signals wdf pp request)
  unfolding get_comp_signals
  get_comp_signals-IsKept =
      IsHandled-IsKept wdf pp request _ calm (with_output-IsHandled wdf pp request _)

  pub comp_evt_ioctl-IsKept : (code : CompIoctl) → Ends Kept (comp_evt_ioctl wdf pp request code)
  unfolding comp_evt_ioctl
  comp_evt_ioctl-IsKept wait_signal_change =
      either_way (Ends Kept) pp.active wait_signal-IsKept
        (answered-IsKept wdf pp calm request _ refl)
  comp_evt_ioctl-IsKept get_signals =
      either_way (Ends Kept) pp.active get_comp_signals-IsKept
        (answered-IsKept wdf pp calm request _ refl)
  comp_evt_ioctl-IsKept set_signals =
      either_way (Ends Kept) pp.active set_comp_signals-IsKept
        (answered-IsKept wdf pp calm request _ refl)
  comp_evt_ioctl-IsKept (other _) =
      either_way (Ends Kept) pp.active (answered-IsKept wdf pp calm request _ refl)
        (answered-IsKept wdf pp calm request _ refl)

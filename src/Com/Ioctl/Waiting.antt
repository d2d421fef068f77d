-- ===== src/Com/Ioctl/Waiting.antt =====
-- GcomComEvtIoctl: the requests for a break and for a wait on the mask leave the rest alone and are
-- completed once, or wait.
use mathlib.Core.List.{Perm, perm_middle, perm_append_singleton}
use mathlib.Core.List.Perm
use ghostcom.Base.{Option, none, some, ◌≡◌, ◌≢◌, refl, ap, ap₂, sym, ◌∙◌, subst, inl, inr}
use ghostcom.Base.{is_there, Bool-cases, List, [], ◌∷◌, ◌++◌, append_assoc}
use ghostcom.Status.{nt_success, success}
use ghostcom.Wdf.{Wdf, Completion, complete, held, requests, requests-append}
use ghostcom.Pair.{PortPair}
use ghostcom.Ntddser.{ev_break}
use ghostcom.Changed.{changed_break}
use ghostcom.Drain.Moved.{perm_shuffle}
use ghostcom.Signal.{signal_changed, check_wait_mask}
use ghostcom.Signal.Changed.{
  signal_changed_frame, signal_changed-once, check_wait_mask_frame, check_wait_mask-once,
}
use ghostcom.Signal.There.{signal_changed_there, check_wait_mask_there}
use ghostcom.Transfer.{Ends, pend}
use ghostcom.Transfer.Steps.{put_back-Ends}
use ghostcom.Com.Lines.{set_break_on}
use ghostcom.Com.Waits.{wait_on_mask}
use ghostcom.Com.Ioctl.Handled.{IsHandled, data_of, waits}

-- The request at the end comes to the front, and each told list to its waits.
merged :
    {A : Type 0} (r : A) (told events signals masks : List A)
    → Perm
        ((told ++ (events ++ (r ∷ []))) ++ (signals ++ masks))
        (r ∷ ((told ++ signals) ++ (events ++ masks)))
merged r told events signals masks =
    rw
      (
        append_assoc told (events ++ (r ∷ [])) (signals ++ masks),
        append_assoc events (r ∷ []) (signals ++ masks),
        append_assoc told signals (events ++ masks),
      )
      (Perm.trans (Perm.append_left told (perm_middle events (signals ++ masks))) (
        Perm.trans (perm_middle told (events ++ (signals ++ masks)))
          (Perm.cons r (Perm.append_left told (perm_shuffle events signals masks)))))

module _ (wdf : Wdf) (pp : PortPair wdf.Queue) (r : wdf.Request) where
  open wdf use {Request, Queue, pending}

  pub set_break_on-IsHandled : IsHandled wdf pp r (set_break_on wdf pp r)
  unfolding set_break_on
  set_break_on-IsHandled = record {
    kept = ap data_of after_frame ∙ ap data_of frame;
    signals_there =
        ap (λ p. is_there p.signal_wait_queue) after_frame
        ∙ signal_changed_there wdf broken changed_break;
    masks_there =
        check_wait_mask_there wdf told.0 ev_break ∙ ap (λ p. is_there p.wait_mask_queue) frame;
    once =
        rw
          (
            requests-append told.1 (events.1 ++ (complete r success ∷ [])),
            requests-append events.1 (complete r success ∷ []),
          )
          (Perm.trans
            (merged r (requests told.1) (requests events.1) (held wdf events.0.signal_wait_queue)
              (held wdf events.0.wait_mask_queue))
            (Perm.cons r (subst (λ l. Perm l (waits wdf pp)) (sym same) (Perm.refl _))));
  }
    where
      broken : PortPair Queue
      broken = record pp { signal_state = record (pp.signal_state) { break_state = 1 } }

      told : PortPair Queue × List (Completion Request)
      told = signal_changed wdf broken changed_break

      events : PortPair Queue × List (Completion Request)
      events = check_wait_mask wdf told.0 ev_break

      frame : told.0 ≡ record broken {
        signal_state = record (broken.signal_state) {
          sequence_number = told.0.signal_state.sequence_number;
          changed_mask = told.0.signal_state.changed_mask;
        };
        signal_wait_queue = told.0.signal_wait_queue;
      }
      frame = signal_changed_frame wdf broken changed_break

      after_frame : events.0 ≡ record (told.0) { wait_mask_queue = events.0.wait_mask_queue }
      after_frame = check_wait_mask_frame wdf told.0 ev_break

      same :
          (requests told.1 ++ held wdf events.0.signal_wait_queue)
            ++ (requests events.1 ++ held wdf events.0.wait_mask_queue)
          ≡ waits wdf pp
      same =
          ap₂ ◌++◌
            (ap (λ p. requests told.1 ++ held wdf p.signal_wait_queue) after_frame
              ∙ signal_changed-once wdf broken changed_break)
            (check_wait_mask-once wdf told.0 ev_break ∙ ap (λ p. held wdf p.wait_mask_queue) frame)

  pub wait_on_mask-IsHandled :
      pp.wait_mask_queue ≢ none → Ends (IsHandled wdf pp r) (wait_on_mask wdf pp r)
  unfolding wait_on_mask pend
  wait_on_mask-IsHandled there =
      put_back-Ends wdf (IsHandled wdf pp r) _ _ (go pp.wait_mask_queue there refl)
    where
      go :
          (handle : Option Queue)
          → handle ≢ none
          → pp.wait_mask_queue ≡ handle
          → Ends
              (λ (p : Option Queue × List (Completion Request)).
                IsHandled wdf pp r (record pp { wait_mask_queue = p.0 }, p.1))
              (pend wdf r handle)
      go none absent e = absurd (absent refl)
      go (some queue) _ e = elim (Bool-cases (nt_success (wdf.forward r queue).0)) [
        | inl ok ↦
            rw (ok, pend)
              (record {
                kept = refl;
                signals_there = refl;
                masks_there = ap is_there (sym e);
                once =
                    let sw = held wdf pp.signal_wait_queue in
                    rw
                      (
                        wdf.forward_ok r queue ok,
                        ap (held wdf) e,
                        ← append_assoc sw (pending queue) (r ∷ []),
                      )
                      (perm_append_singleton r (sw ++ pending queue));
              })
        | inr bad ↦
            rw (bad, pend)
              (record {
                kept = refl;
                signals_there = refl;
                masks_there = ap is_there (sym e);
                once = rw (wdf.forward_failed r queue bad, ap (held wdf) e) (Perm.refl _);
              })
      ]

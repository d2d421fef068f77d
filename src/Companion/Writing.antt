-- ===== src/Companion/Writing.antt =====
-- GcomCompEvtWrite on a settled direction.
use ghostcom.Base.{ℕ, ◌≤◌, ◌≡◌, ◌≢◌, refl, ap, sym, ◌∙◌, subst, arith, inl, inr, min, if◌then◌else◌}
use ghostcom.Base.{
  List, [], ◌∷◌, ◌++◌, append-nil, Bool-cases, true, none, some, Option, ltb, length,
}
use ghostcom.Status.{nt_success, device_not_connected}
use ghostcom.Word.{ulong}
use ghostcom.Ring.{write}
use ghostcom.Wdf.{Wdf, Completion, complete, held, requests}
use ghostcom.Pair.{PortPair}
use ghostcom.Ntddser.{ev_rxchar}
use ghostcom.Drain.{drain_peer}
use ghostcom.Drain.Moved.{drain_peer-Served}
use ghostcom.Signal.{check_wait_mask}
use ghostcom.Signal.Changed.{check_wait_mask_frame, check_wait_mask-once}
use ghostcom.Transfer.{Ends}
use ghostcom.Transfer.Steps.{write_some, write_none, Ends-map, put_back-Ends, pend_write-Flow}
use ghostcom.Ring.Writing.{write_refines}
use ghostcom.Transfer.Flow.{IsSettled, Flow, Flow-nothing, Flow-write}
use ghostcom.Companion.{comp_evt_write, comp_write_active}

module _ (wdf : Wdf) where
  open wdf use {Request, Queue, input_buffer}

  -- What a write by the companion side must do to its direction; `events` go to the waits of the mask.
  abbrev pub CompWriteFlow :
      PortPair Queue → Request → PortPair Queue × List (Completion Request) → Type 0
  CompWriteFlow pp request out =
      (log : List (Completion Request)) × (events : List (Completion Request)) × (out.1
        ≡ log ++ events)
      × (requests events ++ held wdf out.0.wait_mask_queue ≡ held wdf pp.wait_mask_queue)
      × Flow wdf pp.companion_to_com (held wdf pp.com_read_queue) (held wdf pp.comp_write_queue)
          request out.0.companion_to_com (held wdf out.0.com_read_queue)
          (held wdf out.0.comp_write_queue) log

  module _ (pp : PortPair Queue) (request : Request) (len : ℕ) (asked : 1 ≤ len)
      (there : pp.comp_write_queue ≢ none)
      (s : IsSettled wdf pp.companion_to_com
        (held wdf pp.com_read_queue)
        (held wdf pp.comp_write_queue)) where
    -- No event is told of.
    quiet :
        (out : PortPair Queue × List (Completion Request))
        → out.0.wait_mask_queue ≡ pp.wait_mask_queue
        → Flow wdf pp.companion_to_com
            (held wdf pp.com_read_queue)
            (held wdf pp.comp_write_queue)
            request
            out.0.companion_to_com
            (held wdf out.0.com_read_queue)
            (held wdf out.0.comp_write_queue)
            out.1
        → CompWriteFlow pp request out
    quiet out same f = (out.1, [], sym (append-nil out.1), ap (held wdf) same, f)

    -- The waits of the mask are told.
    told :
        (after : PortPair Queue) (log : List (Completion Request))
        → after.wait_mask_queue ≡ pp.wait_mask_queue
        → Flow wdf pp.companion_to_com
            (held wdf pp.com_read_queue)
            (held wdf pp.comp_write_queue)
            request
            after.companion_to_com
            (held wdf after.com_read_queue)
            (held wdf after.comp_write_queue)
            log
        → let (after', events) = check_wait_mask wdf after ev_rxchar in
          CompWriteFlow pp request (after', log ++ events)
    told after log same f =
        let frame = check_wait_mask_frame wdf after ev_rxchar in
        (
          log,
          (check_wait_mask wdf after ev_rxchar).1,
          refl,
          check_wait_mask-once wdf after ev_rxchar ∙ ap (held wdf) same,
          rw
              (
                ap (λ p. p.companion_to_com) frame,
                ap (λ p. p.com_read_queue) frame,
                ap (λ p. p.comp_write_queue) frame,
              )
              f,
        )

    comp_write_active-Flow : Ends (CompWriteFlow pp request) (comp_write_active wdf pp request len)
    unfolding comp_write_active
    comp_write_active-Flow = elim (Bool-cases (nt_success (input_buffer request 1).0)) [
      | inr bad ↦
          rw (bad, comp_write_active)
            (quiet (pp, complete request (input_buffer request 1).0 ∷ []) refl
              (Flow-nothing wdf s request _))
      | inl ok ↦
          let room = wdf.input_length request 1 ok in
          let bytes = (input_buffer request 1).1 in
          let n = ulong (min (length bytes) len) in
          let enough : n ≤ length bytes = omega (arith, room) in
          elim (Bool-cases (ltb 0 (write pp.companion_to_com bytes n).0)) [
            | inl h ↦
                let put = write_some s.valid n bytes enough h in
                let (v, size, _) = write_refines s.valid bytes n enough in
                rw (ok, h, comp_write_active)
                  (told
                    (record pp {
                      companion_to_com =
                          (drain_peer wdf (write pp.companion_to_com bytes n).1
                            pp.com_read_queue).0;
                      com_read_queue =
                          (drain_peer wdf (write pp.companion_to_com bytes n).1
                            pp.com_read_queue).1;
                    })
                    _ refl
                    (Flow-write wdf s request (write pp.companion_to_com bytes n).0 put.0 size put.1
                      (drain_peer-Served wdf pp.com_read_queue v)))
            | inr h ↦
                rw (ok, h, comp_write_active)
                  (put_back-Ends wdf (CompWriteFlow pp request) _ _ (
                    Ends-map
                      {P = λ p.
                        Flow wdf pp.companion_to_com (held wdf pp.com_read_queue)
                          (held wdf pp.comp_write_queue) request pp.companion_to_com
                          (held wdf pp.com_read_queue) (held wdf p.0) p.1}
                      _
                      (λ (p : Option Queue × List (Completion Request)) f.
                        quiet (record pp { comp_write_queue = p.0 }, p.1) refl f)
                      (pend_write-Flow wdf request pp.comp_write_queue there s
                        (write_none s.valid n bytes enough h (omega (arith, room, asked))))))
          ]
    ]

    -- GcomCompEvtWrite on an active pair whose direction is settled and whose queue of
    -- waiting writes is there, for one byte at least, comes to an end and leaves the
    -- direction settled: reads wait only on an empty ring and writes only on a full one.
    -- The request and those that waited are completed once or still wait, and the bytes
    -- handed out and those left are the bytes held and those accepted, in order. The waits
    -- of the mask are each told of an event once or still wait.
    pub comp_evt_write-Flow :
        pp.active ≡ true → Ends (CompWriteFlow pp request) (comp_evt_write wdf pp request len)
    unfolding comp_evt_write
    comp_evt_write-Flow on =
        subst
          (λ b. Ends (CompWriteFlow pp request) (
            if b
            then comp_write_active wdf pp request len
            else some (pp, complete request device_not_connected ∷ [])))
          (sym on) comp_write_active-Flow

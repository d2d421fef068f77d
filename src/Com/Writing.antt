-- ===== src/Com/Writing.antt =====
-- GcomComEvtWrite on a settled direction.
use ghostcom.Base.{ℕ, ◌≤◌, ◌≡◌, ◌≢◌, refl, ap, sym, ◌∙◌, subst, arith, inl, inr, min, if◌then◌else◌}
use ghostcom.Base.{
  List, [], ◌∷◌, ◌++◌, append-nil, Bool-cases, true, false, none, some, Option, Bool, ltb, length,
}
use ghostcom.Status.{nt_success, device_not_connected}
use ghostcom.Word.{ulong}
use ghostcom.Ring.{write}
use ghostcom.Wdf.{Wdf, Completion, complete, held, requests}
use ghostcom.Pair.{PortPair}
use ghostcom.Ntddser.{ev_txempty}
use ghostcom.Drain.Moved.{drain_peer-Served}
use ghostcom.Signal.{check_wait_mask}
use ghostcom.Signal.Changed.{check_wait_mask_frame, check_wait_mask-once}
use ghostcom.Transfer.{Ends}
use ghostcom.Transfer.Steps.{write_some, write_none, Ends-map, put_back-Ends, pend_write-Flow}
use ghostcom.Ring.Writing.{write_refines}
use ghostcom.Transfer.Flow.{IsSettled, Flow, Flow-nothing, Flow-write}
use ghostcom.Com.{com_evt_write, com_write_active}

module _ (wdf : Wdf) where
  open wdf use {Request, Queue, input_buffer}

  -- What a write by the COM side must do to its direction; `events` go to the waits of the mask.
  abbrev pub ComWriteFlow :
      PortPair Queue → Request → PortPair Queue × List (Completion Request) → Type 0
  ComWriteFlow pp request out =
      (log : List (Completion Request)) × (events : List (Completion Request)) × (out.1
        ≡ log ++ events)
      × (requests events ++ held wdf out.0.wait_mask_queue ≡ held wdf pp.wait_mask_queue)
      × Flow wdf pp.com_to_companion (held wdf pp.comp_read_queue) (held wdf pp.com_write_queue)
          request out.0.com_to_companion (held wdf out.0.comp_read_queue)
          (held wdf out.0.com_write_queue) log

  module _ (pp : PortPair Queue) (request : Request) (len : ℕ) (asked : 1 ≤ len)
      (there : pp.com_write_queue ≢ none)
      (s : IsSettled wdf pp.com_to_companion
        (held wdf pp.comp_read_queue)
        (held wdf pp.com_write_queue)) where
    -- No event is told of.
    quiet :
        (out : PortPair Queue × List (Completion Request))
        → out.0.wait_mask_queue ≡ pp.wait_mask_queue
        → Flow wdf pp.com_to_companion
            (held wdf pp.comp_read_queue)
            (held wdf pp.com_write_queue)
            request
            out.0.com_to_companion
            (held wdf out.0.comp_read_queue)
            (held wdf out.0.com_write_queue)
            out.1
        → ComWriteFlow pp request out
    quiet out same f = (out.1, [], sym (append-nil out.1), ap (held wdf) same, f)

    -- The waits of the mask are told, or not.
    told :
        (after : PortPair Queue) (log : List (Completion Request)) (b : Bool)
        → after.wait_mask_queue ≡ pp.wait_mask_queue
        → Flow wdf pp.com_to_companion
            (held wdf pp.comp_read_queue)
            (held wdf pp.com_write_queue)
            request
            after.com_to_companion
            (held wdf after.comp_read_queue)
            (held wdf after.com_write_queue)
            log
        → let (after', events) = if b then check_wait_mask wdf after ev_txempty else (after, []) in
          ComWriteFlow pp request (after', log ++ events)
    told after log false same f = (log, [], refl, ap (held wdf) same, f)
    told after log true same f =
        let frame = check_wait_mask_frame wdf after ev_txempty in
        (
          log,
          (check_wait_mask wdf after ev_txempty).1,
          refl,
          check_wait_mask-once wdf after ev_txempty ∙ ap (held wdf) same,
          rw
              (
                ap (λ p. p.com_to_companion) frame,
                ap (λ p. p.comp_read_queue) frame,
                ap (λ p. p.com_write_queue) frame,
              )
              f,
        )

    com_write_active-Flow : Ends (ComWriteFlow pp request) (com_write_active wdf pp request len)
    unfolding com_write_active
    com_write_active-Flow = elim (Bool-cases (nt_success (input_buffer request 1).0)) [
      | inr bad ↦
          rw (bad, com_write_active)
            (quiet (pp, complete request (input_buffer request 1).0 ∷ []) refl
              (Flow-nothing wdf s request _))
      | inl ok ↦
          let room = wdf.input_length request 1 ok in
          let bytes = (input_buffer request 1).1 in
          let n = ulong (min (length bytes) len) in
          let enough : n ≤ length bytes = omega (arith, room) in
          elim (Bool-cases (ltb 0 (write pp.com_to_companion bytes n).0)) [
            | inl h ↦
                let put = write_some s.valid n bytes enough h in
                let (v, size, _) = write_refines s.valid bytes n enough in
                rw (ok, h, com_write_active)
                  (told _ _ _ refl (
                    Flow-write wdf s request (write pp.com_to_companion bytes n).0 put.0 size put.1
                      (drain_peer-Served wdf pp.comp_read_queue v)))
            | inr h ↦
                rw (ok, h, com_write_active)
                  (put_back-Ends wdf (ComWriteFlow pp request) _ _ (
                    Ends-map
                      {P = λ p.
                        Flow wdf pp.com_to_companion (held wdf pp.comp_read_queue)
                          (held wdf pp.com_write_queue) request pp.com_to_companion
                          (held wdf pp.comp_read_queue) (held wdf p.0) p.1}
                      _
                      (λ (p : Option Queue × List (Completion Request)) f.
                        quiet (record pp { com_write_queue = p.0 }, p.1) refl f)
                      (pend_write-Flow wdf request pp.com_write_queue there s
                        (write_none s.valid n bytes enough h (omega (arith, room, asked))))))
          ]
    ]

    -- GcomComEvtWrite on an active pair whose direction is settled and whose queue of
    -- waiting writes is there, for one byte at least, comes to an end and leaves the
    -- direction settled: reads wait only on an empty ring and writes only on a full one.
    -- The request and those that waited are completed once or still wait, and the bytes
    -- handed out and those left are the bytes held and those accepted, in order. The waits
    -- of the mask are each told of an event once or still wait.
    pub com_evt_write-Flow :
        pp.active ≡ true → Ends (ComWriteFlow pp request) (com_evt_write wdf pp request len)
    unfolding com_evt_write
    com_evt_write-Flow on =
        subst
          (λ b. Ends (ComWriteFlow pp request) (
            if b
            then com_write_active wdf pp request len
            else some (pp, complete request device_not_connected ∷ [])))
          (sym on) com_write_active-Flow

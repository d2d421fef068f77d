-- ===== src/Companion/Reading.antt =====
-- GcomCompEvtRead on a settled direction.
use ghostcom.Base.{ℕ, ◌≤◌, ◌≢◌, ◌≡◌, sym, subst, arith, inl, inr, min, if◌then◌else◌}
use ghostcom.Base.{List, [], ◌∷◌, Bool-cases, true, none, some, ltb}
use ghostcom.Status.{nt_success, device_not_connected}
use ghostcom.Word.{ulong}
use ghostcom.Ring.{read}
use ghostcom.Wdf.{Wdf, Completion, complete, held}
use ghostcom.Pair.{PortPair}
use ghostcom.Transfer.{Ends}
use ghostcom.Transfer.Steps.{read_some, read_none, put_back-Ends, unblock-Moved, pend_read-Flow}
use ghostcom.Ring.Reading.{read_refines}
use ghostcom.Transfer.Flow.{IsSettled, Flow, Flow-nothing, Flow-read}
use ghostcom.Companion.{comp_evt_read, comp_read_active}

module _ (wdf : Wdf) where
  open wdf use {Request, Queue, output_buffer}

  -- What a read by the companion side must do to its direction.
  abbrev pub CompReadFlow :
      PortPair Queue → Request → PortPair Queue × List (Completion Request) → Type 0
  CompReadFlow pp request out =
      Flow wdf pp.com_to_companion (held wdf pp.comp_read_queue) (held wdf pp.com_write_queue)
        request out.0.com_to_companion (held wdf out.0.comp_read_queue)
        (held wdf out.0.com_write_queue) out.1

  module _ (pp : PortPair Queue) (request : Request) (len : ℕ) (asked : 1 ≤ len)
      (there : pp.comp_read_queue ≢ none)
      (s : IsSettled wdf pp.com_to_companion
        (held wdf pp.comp_read_queue)
        (held wdf pp.com_write_queue)) where
    comp_read_active-Flow : Ends (CompReadFlow pp request) (comp_read_active wdf pp request len)
    unfolding comp_read_active
    comp_read_active-Flow = elim (Bool-cases (nt_success (output_buffer request 1).0)) [
      | inr bad ↦ rw (bad, comp_read_active) (Flow-nothing wdf s request _)
      | inl ok ↦
          let room = wdf.output_length request 1 ok in
          let n = ulong (min (output_buffer request 1).1 len) in
          elim (Bool-cases (ltb 0 (read pp.com_to_companion n).0)) [
            | inl h ↦
                let got = read_some s.valid n h in
                let step = read_refines s.valid n in
                rw (ok, h, comp_read_active)
                  (Flow-read wdf s request _ _ got.0 got.1 step.1 got.2
                    (unblock-Moved wdf pp.com_write_queue pp.comp_read_queue step.0))
            | inr h ↦
                rw (ok, h, comp_read_active)
                  (put_back-Ends wdf (CompReadFlow pp request) _ _ (
                    pend_read-Flow wdf request pp.comp_read_queue there s
                      (read_none s.valid n h (omega (arith, room, asked)))))
          ]
    ]

    -- GcomCompEvtRead on an active pair whose direction is settled and whose queue of
    -- waiting reads is there, for one byte at least, comes to an end and leaves the
    -- direction settled: reads wait only on an empty ring and writes only on a full one.
    -- The request and those that waited are completed once or still wait, and the bytes
    -- handed out and those left are the bytes held and those accepted, in order.
    pub comp_evt_read-Flow :
        pp.active ≡ true → Ends (CompReadFlow pp request) (comp_evt_read wdf pp request len)
    unfolding comp_evt_read
    comp_evt_read-Flow on =
        subst
          (λ b. Ends (CompReadFlow pp request) (
            if b
            then comp_read_active wdf pp request len
            else some (pp, complete request device_not_connected ∷ [])))
          (sym on) comp_read_active-Flow

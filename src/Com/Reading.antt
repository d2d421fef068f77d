-- ===== src/Com/Reading.antt =====
-- GcomComEvtRead on a settled direction.
use ghostcom.Base.{ℕ, ◌≤◌, ◌≢◌, ◌≡◌, sym, subst, arith, inl, inr, min, if◌then◌else◌}
use ghostcom.Base.{List, [], ◌∷◌, Bool-cases, true, none, some, ltb}
use ghostcom.Status.{nt_success, success, device_not_connected}
use ghostcom.Word.{ulong}
use ghostcom.Ring.{read}
use ghostcom.Wdf.{Wdf, Completion, complete, held}
use ghostcom.Pair.{PortPair}
use ghostcom.Transfer.{Ends}
use ghostcom.Transfer.Steps.{read_some, read_none, put_back-Ends, unblock-Moved, pend_read-Flow}
use ghostcom.Ring.Reading.{read_refines}
use ghostcom.Transfer.Flow.{IsSettled, Flow, Flow-nothing, Flow-read}
use ghostcom.Com.{com_evt_read, com_read_active, returns_at_once}

module _ (wdf : Wdf) where
  open wdf use {Request, Queue, output_buffer}

  -- What a read by the COM side must do to its direction.
  abbrev pub ComReadFlow :
      PortPair Queue → Request → PortPair Queue × List (Completion Request) → Type 0
  ComReadFlow pp request out =
      Flow wdf pp.companion_to_com (held wdf pp.com_read_queue) (held wdf pp.comp_write_queue)
        request out.0.companion_to_com (held wdf out.0.com_read_queue)
        (held wdf out.0.comp_write_queue) out.1

  module _ (pp : PortPair Queue) (request : Request) (len : ℕ) (asked : 1 ≤ len)
      (there : pp.com_read_queue ≢ none)
      (s : IsSettled wdf pp.companion_to_com
        (held wdf pp.com_read_queue)
        (held wdf pp.comp_write_queue)) where
    com_read_active-Flow : Ends (ComReadFlow pp request) (com_read_active wdf pp request len)
    unfolding com_read_active
    com_read_active-Flow = elim (Bool-cases (nt_success (output_buffer request 1).0)) [
      | inr bad ↦ rw (bad, com_read_active) (Flow-nothing wdf s request _)
      | inl ok ↦
          let room = wdf.output_length request 1 ok in
          let n = ulong (min (output_buffer request 1).1 len) in
          elim (Bool-cases (ltb 0 (read pp.companion_to_com n).0)) [
            | inl h ↦
                let got = read_some s.valid n h in
                let step = read_refines s.valid n in
                rw (ok, h, com_read_active)
                  (Flow-read wdf s request _ _ got.0 got.1 step.1 got.2
                    (unblock-Moved wdf pp.comp_write_queue pp.com_read_queue step.0))
            | inr h ↦ elim (Bool-cases (returns_at_once pp.timeouts)) [
              | inl t ↦ rw (ok, h, t, com_read_active) (Flow-nothing wdf s request success)
              | inr t ↦
                  rw (ok, h, t, com_read_active)
                    (put_back-Ends wdf (ComReadFlow pp request) _ _ (
                      pend_read-Flow wdf request pp.com_read_queue there s
                        (read_none s.valid n h (omega (arith, room, asked)))))
            ]
          ]
    ]

    -- GcomComEvtRead on an active pair whose direction is settled and whose queue of
    -- waiting reads is there, for one byte at least, comes to an end and leaves the
    -- direction settled: reads wait only on an empty ring and writes only on a full one.
    -- The request and those that waited are completed once or still wait, and the bytes
    -- handed out and those left are the bytes held and those accepted, in order.
    pub com_evt_read-Flow :
        pp.active ≡ true → Ends (ComReadFlow pp request) (com_evt_read wdf pp request len)
    unfolding com_evt_read
    com_evt_read-Flow on =
        subst
          (λ b. Ends (ComReadFlow pp request) (
            if b
            then com_read_active wdf pp request len
            else some (pp, complete request device_not_connected ∷ [])))
          (sym on) com_read_active-Flow

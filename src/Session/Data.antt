-- ===== src/Session/Data.antt =====
-- The reads and writes of both sides keep a pair calm.
use ghostcom.Base.{ℕ, Bool, true, false, ◌≡◌, refl, ap, arith, inl, inr, min}
use ghostcom.Base.{Bool-cases, List, [], ◌∷◌, ◌++◌, Option, length, ltb, if◌then◌else◌}
use ghostcom.Base.{either_way, subst, sym, append-nil}
use ghostcom.Status.{nt_success}
use ghostcom.Word.{ulong}
use ghostcom.Ring.{Ring, read, write}
use ghostcom.Ring.Reading.{read_refines}
use ghostcom.Ring.Writing.{write_refines}
use ghostcom.Wdf.{Wdf, Completion}
use ghostcom.Pair.{PortPair, PerfStats}
use ghostcom.Ntddser.{ev_txempty, ev_rxchar}
use ghostcom.Transfer.{Ends, pend}
use ghostcom.Transfer.Steps.{read_some, read_none, Ends-map, put_back-Ends}
use ghostcom.Signal.{check_wait_mask}
use ghostcom.Com.{com_evt_read, com_read_active, com_evt_write, com_write_active, returns_at_once}
use ghostcom.Companion.{comp_evt_read, comp_read_active, comp_evt_write, comp_write_active}
use ghostcom.Session.Calm.{IsCalm, IsKept, check_wait_mask-IsKept}
use ghostcom.Session.Tended.{
  Tended, Tended-answered, pend_read-Tended, pend_write-Tended, unblock-Tended, drain_peer-Tended,
}

module _ (wdf : Wdf) (pp : PortPair wdf.Queue) (calm : IsCalm wdf pp) where
  open wdf use {Request, Queue, output_buffer, input_buffer}

  -- A direction is tended, and the pair with it.
  to_com-IsKept :
      {came : List Request} {ring : Ring} {writes reads : Option Queue}
      {done : List (Completion Request)} (stats : PerfStats)
      → Tended wdf pp.companion_to_com pp.comp_write_queue pp.com_read_queue came ring writes reads
          done
      → IsKept wdf pp came [] (
        record pp {
          companion_to_com = ring;
          com_read_queue = reads;
          comp_write_queue = writes;
          perf_stats = stats;
        },
        done,
      )
  to_com-IsKept stats t = record {
    calm = record {
      to_com = t.idle;
      to_companion = calm.to_companion;
      com_writes = calm.com_writes;
      comp_writes = t.writers;
      signals = calm.signals;
      masks = calm.masks;
    };
    same =
        ap
          (λ size. (
            pp.port_number, pp.companion_index, pp.active, pp.com_side_open, pp.companion_side_open,
            pp.ref_count, pp.com_to_companion.size, size,
          ))
          t.size;
    once = λ weight. omega (arith, t.once weight);
  }

  pub to_companion-IsKept :
      {came : List Request} {ring : Ring} {writes reads : Option Queue}
      {done : List (Completion Request)} (stats : PerfStats)
      → Tended wdf pp.com_to_companion pp.com_write_queue pp.comp_read_queue came ring writes reads
          done
      → IsKept wdf pp came [] (
        record pp {
          com_to_companion = ring;
          comp_read_queue = reads;
          com_write_queue = writes;
          perf_stats = stats;
        },
        done,
      )
  to_companion-IsKept stats t = record {
    calm = record {
      to_com = calm.to_com;
      to_companion = t.idle;
      com_writes = t.writers;
      comp_writes = calm.comp_writes;
      signals = calm.signals;
      masks = calm.masks;
    };
    same =
        ap
          (λ size. (
            pp.port_number, pp.companion_index, pp.active, pp.com_side_open, pp.companion_side_open,
            pp.ref_count, size, pp.companion_to_com.size,
          ))
          t.size;
    once = λ weight. omega (arith, t.once weight);
  }

  module _ (request : Request) where
    abbrev Kept : PortPair Queue × List (Completion Request) → Type 0
    Kept out = IsKept wdf pp (request ∷ []) [] out

    pub answered-IsKept : (c : Completion Request) → c.request ≡ request → Kept (pp, c ∷ [])
    answered-IsKept c e = to_com-IsKept pp.perf_stats (
        Tended-answered wdf pp.comp_write_queue pp.com_read_queue calm.to_com calm.comp_writes
          request c e)

    module _ (len : ℕ) (asked : ltb 0 len ≡ true) where
      com_read_active-IsKept : Ends Kept (com_read_active wdf pp request len)
      unfolding com_read_active
      com_read_active-IsKept = elim (Bool-cases (nt_success (output_buffer request 1).0)) [
        | inr bad ↦ rw (bad, com_read_active) (answered-IsKept _ refl)
        | inl ok ↦
            let room = wdf.output_length request 1 ok in
            let n = ulong (min (output_buffer request 1).1 len) in
            let v = calm.to_com.valid in
            elim (Bool-cases (ltb 0 (read pp.companion_to_com n).0)) [
              | inl h ↦
                  let got = read_some v n h in
                  let step = read_refines v n in
                  rw (ok, h, com_read_active)
                    (to_com-IsKept _ (
                      unblock-Tended wdf pp.comp_write_queue pp.com_read_queue calm.to_com
                        calm.comp_writes request _ _ refl step.0 step.1
                        (omega (arith, got.0, got.1)) got.2))
              | inr h ↦ elim (Bool-cases (returns_at_once pp.timeouts)) [
                | inl t ↦ rw (ok, h, t, com_read_active) (answered-IsKept _ refl)
                | inr t ↦
                    rw (ok, h, t, com_read_active)
                      (put_back-Ends wdf Kept _ _ (
                        Ends-map (pend wdf request pp.com_read_queue)
                          (λ p t. to_com-IsKept pp.perf_stats t)
                          (pend_read-Tended wdf pp.comp_write_queue pp.com_read_queue calm.to_com
                            calm.comp_writes request
                            (read_none v n h (ground (arith, room, asked))))))
              ]
            ]
      ]

      pub com_evt_read-IsKept : Ends Kept (com_evt_read wdf pp request len)
      unfolding com_evt_read
      com_evt_read-IsKept =
          either_way (Ends Kept) pp.active com_read_active-IsKept (answered-IsKept _ refl)

      comp_read_active-IsKept : Ends Kept (comp_read_active wdf pp request len)
      unfolding comp_read_active
      comp_read_active-IsKept = elim (Bool-cases (nt_success (output_buffer request 1).0)) [
        | inr bad ↦ rw (bad, comp_read_active) (answered-IsKept _ refl)
        | inl ok ↦
            let room = wdf.output_length request 1 ok in
            let n = ulong (min (output_buffer request 1).1 len) in
            let v = calm.to_companion.valid in
            elim (Bool-cases (ltb 0 (read pp.com_to_companion n).0)) [
              | inl h ↦
                  let got = read_some v n h in
                  let step = read_refines v n in
                  rw (ok, h, comp_read_active)
                    (to_companion-IsKept pp.perf_stats (
                      unblock-Tended wdf pp.com_write_queue pp.comp_read_queue calm.to_companion
                        calm.com_writes request _ _ refl step.0 step.1 (omega (arith, got.0, got.1))
                        got.2))
              | inr h ↦
                  rw (ok, h, comp_read_active)
                    (put_back-Ends wdf Kept _ _ (
                      Ends-map (pend wdf request pp.comp_read_queue)
                        (λ p t. to_companion-IsKept pp.perf_stats t)
                        (pend_read-Tended wdf pp.com_write_queue pp.comp_read_queue
                          calm.to_companion calm.com_writes request
                          (read_none v n h (ground (arith, room, asked))))))
            ]
      ]

      pub comp_evt_read-IsKept : Ends Kept (comp_evt_read wdf pp request len)
      unfolding comp_evt_read
      comp_evt_read-IsKept =
          either_way (Ends Kept) pp.active comp_read_active-IsKept (answered-IsKept _ refl)

    module _ (len : ℕ) where
      com_write_active-IsKept : Ends Kept (com_write_active wdf pp request len)
      unfolding com_write_active
      com_write_active-IsKept = elim (Bool-cases (nt_success (input_buffer request 1).0)) [
        | inr bad ↦ rw (bad, com_write_active) (answered-IsKept _ refl)
        | inl ok ↦
            let room = wdf.input_length request 1 ok in
            let bytes = (input_buffer request 1).1 in
            let n = ulong (min (length bytes) len) in
            let (v, size, _) =
              write_refines calm.to_companion.valid bytes n (omega (arith, room)) in
            elim (Bool-cases (ltb 0 (write pp.com_to_companion bytes n).0)) [
              | inl h ↦
                  rw (ok, h, com_write_active)
                    (told _ _ _ (
                      to_companion-IsKept _ (
                        drain_peer-Tended wdf pp.com_write_queue pp.comp_read_queue
                          calm.to_companion calm.com_writes request _ refl v size)))
              | inr h ↦
                  rw (ok, h, com_write_active)
                    (put_back-Ends wdf Kept _ _ (
                      Ends-map (pend wdf request pp.com_write_queue)
                        (λ p t. to_companion-IsKept pp.perf_stats t)
                        (pend_write-Tended wdf pp.com_write_queue pp.comp_read_queue
                          calm.to_companion calm.com_writes request)))
            ]
      ]
        where
          told :
              (after : PortPair Queue) (log : List (Completion Request)) (b : Bool)
              → Kept (after, log)
              → let (after', events) =
                  if b then check_wait_mask wdf after ev_txempty else (after, []) in
                Kept (after', log ++ events)
          told after log true k = check_wait_mask-IsKept wdf after log ev_txempty k
          told after log false k = subst (λ l. Kept (after, l)) (sym (append-nil log)) k

      pub com_evt_write-IsKept : Ends Kept (com_evt_write wdf pp request len)
      unfolding com_evt_write
      com_evt_write-IsKept =
          either_way (Ends Kept) pp.active com_write_active-IsKept (answered-IsKept _ refl)

      comp_write_active-IsKept : Ends Kept (comp_write_active wdf pp request len)
      unfolding comp_write_active
      comp_write_active-IsKept = elim (Bool-cases (nt_success (input_buffer request 1).0)) [
        | inr bad ↦ rw (bad, comp_write_active) (answered-IsKept _ refl)
        | inl ok ↦
            let room = wdf.input_length request 1 ok in
            let bytes = (input_buffer request 1).1 in
            let n = ulong (min (length bytes) len) in
            let (v, size, _) = write_refines calm.to_com.valid bytes n (omega (arith, room)) in
            elim (Bool-cases (ltb 0 (write pp.companion_to_com bytes n).0)) [
              | inl h ↦
                  rw (ok, h, comp_write_active)
                    (check_wait_mask-IsKept wdf _ _ ev_rxchar (
                      to_com-IsKept pp.perf_stats (
                        drain_peer-Tended wdf pp.comp_write_queue pp.com_read_queue calm.to_com
                          calm.comp_writes request _ refl v size)))
              | inr h ↦
                  rw (ok, h, comp_write_active)
                    (put_back-Ends wdf Kept _ _ (
                      Ends-map (pend wdf request pp.comp_write_queue)
                        (λ p t. to_com-IsKept pp.perf_stats t)
                        (pend_write-Tended wdf pp.comp_write_queue pp.com_read_queue calm.to_com
                          calm.comp_writes request)))
            ]
      ]

      pub comp_evt_write-IsKept : Ends Kept (comp_evt_write wdf pp request len)
      unfolding comp_evt_write
      comp_evt_write-IsKept =
          either_way (Ends Kept) pp.active comp_write_active-IsKept (answered-IsKept _ refl)

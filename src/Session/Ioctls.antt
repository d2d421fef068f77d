-- ===== src/Session/Ioctls.antt =====
-- The IOCTLs of both sides keep a pair calm.
use ghostcom.Base.{ℕ, ◌+◌, Bool, true, false, ◌≡◌, refl, ap, ap₂, ◌∙◌, arith, inl, inr}
use ghostcom.Base.{[], ◌∷◌, Option, none, some}
use ghostcom.Base.{bit_and, if◌then◌else◌, is_there, total, total-append}
use ghostcom.Status.{success}
use ghostcom.Bytes.{get32}
use ghostcom.Ring.{Ring, flush}
use ghostcom.Ring.Inv.{IsValid}
use ghostcom.Ring.Reading.{flush_refines}
use ghostcom.Ring.Writing.{write_refines}
use ghostcom.Wdf.{Wdf, complete, held}
use ghostcom.Pair.{PortPair}
use ghostcom.Changed.{changed_wait_mask}
use ghostcom.Ntddser.{purge_txabort, purge_rxabort, purge_txclear, purge_rxclear}
use ghostcom.Com.Lines.{is_set}
use ghostcom.Com.Waits.{purge_queue, set_wait_mask}
use ghostcom.Com.Queues.{purged, serial_purge, immediate_char}
use ghostcom.Com.Queues.Purging.{held-purge_queue}
use ghostcom.Com.Ioctl.{mask_set, purge_queues}
use ghostcom.Session.{aborted_by, cancelled_by}
use ghostcom.Session.Calm.{IsIdle, IsCalm, IsKept}
use ghostcom.Session.Data.{answered-IsKept, to_companion-IsKept}
use ghostcom.Session.Tended.{drain_peer-Tended}
use ghostcom.Session.Told.{with_input_cases, signal_changed-IsKept, completed-IsKept}

module _ (wdf : Wdf) where
  open wdf use {Request, Queue, input_buffer}

  -- A queue that is purged, or not: what goes and what stays is what it held.
  aborted_there :
      (b : Bool) (queue : Option Queue)
      → is_there (if b then purge_queue wdf queue else queue) ≡ is_there queue
  unfolding purge_queue
  aborted_there true none = refl
  aborted_there true (some queue) = refl
  aborted_there false queue = refl

  total-aborted :
      (weight : Request → ℕ) (b : Bool) (queue : Option Queue)
      → total weight (if b then held wdf queue else [])
          + total weight (held wdf (if b then purge_queue wdf queue else queue))
        ≡ total weight (held wdf queue)
  total-aborted weight true queue = omega (arith, ap (total weight) (held-purge_queue wdf queue))
  total-aborted weight false queue = omega arith

  -- A ring that is flushed, or not, and its queue of reads, that is purged, or not.
  purged_IsIdle :
      (clear abort : Bool) {ring : Ring} {reads : Option Queue}
      → IsIdle wdf ring reads
      → IsIdle wdf
          (if clear then flush ring else ring)
          (if abort then purge_queue wdf reads else reads)
  purged_IsIdle true abort {reads = reads} idle = record {
    valid = (flush_refines idle.valid).0;
    readers = inl (flush_refines idle.valid).2;
    there = aborted_there abort reads ∙ idle.there;
  }
  purged_IsIdle false true {reads = reads} idle = record {
    valid = idle.valid;
    readers = inr (held-purge_queue wdf reads);
    there = aborted_there true reads ∙ idle.there;
  }
  purged_IsIdle false false idle = idle

  cleared_size :
      (b : Bool) {ring : Ring} → IsValid ring → (if b then flush ring else ring).size ≡ ring.size
  cleared_size true v = (flush_refines v).1
  cleared_size false v = refl

  module _ (pp : PortPair Queue) (calm : IsCalm wdf pp) (request : Request) where
    purged-IsKept :
        (flags : ℕ) → IsKept wdf pp [] (aborted_by wdf pp flags) (purged wdf pp flags, [])
    unfolding purged
    purged-IsKept flags =
        let tx = is_set (bit_and flags purge_txabort) in
        let rx = is_set (bit_and flags purge_rxabort) in
        record {
          calm = record {
            to_com = purged_IsIdle (is_set (bit_and flags purge_rxclear)) rx calm.to_com;
            to_companion =
                purged_IsIdle (is_set (bit_and flags purge_txclear)) false calm.to_companion;
            com_writes = aborted_there tx pp.com_write_queue ∙ calm.com_writes;
            comp_writes = calm.comp_writes;
            signals = calm.signals;
            masks = calm.masks;
          };
          same =
              ap₂
                (λ to_companion to_com. (
                  pp.port_number, pp.companion_index, pp.active, pp.com_side_open,
                  pp.companion_side_open, pp.ref_count, to_companion, to_com,
                ))
                (cleared_size (is_set (bit_and flags purge_txclear)) calm.to_companion.valid)
                (cleared_size (is_set (bit_and flags purge_rxclear)) calm.to_com.valid);
          once = λ weight. omega (
            arith,
            total-aborted weight tx pp.com_write_queue,
            total-aborted weight rx pp.com_read_queue,
            total-append weight (if tx then held wdf pp.com_write_queue else [])
                (if rx then held wdf pp.com_read_queue else []),
          );
        }

    pub serial_purge-IsKept :
        IsKept wdf pp
          (request ∷ [])
          (cancelled_by wdf pp request purge_queues)
          (serial_purge wdf pp request)
    unfolding serial_purge
    serial_purge-IsKept =
        with_input_cases wdf pp
          (IsKept wdf pp (request ∷ []) (cancelled_by wdf pp request purge_queues)) request 4 _
          (λ ok. rw ok (
            completed-IsKept wdf pp _ _ (complete request success)
              (purged-IsKept (get32 (input_buffer request 4).1 0))))
          (λ bad. rw bad (answered-IsKept wdf pp calm request _ refl))

    pub set_wait_mask-IsKept :
        IsKept wdf pp
          (request ∷ [])
          (cancelled_by wdf pp request mask_set)
          (set_wait_mask wdf pp request)
    unfolding set_wait_mask
    set_wait_mask-IsKept =
        with_input_cases wdf pp
          (IsKept wdf pp (request ∷ []) (cancelled_by wdf pp request mask_set)) request 4 _
          (λ ok. rw ok (
            completed-IsKept wdf pp _ _ (complete request success)
              (signal_changed-IsKept wdf pp masked [] changed_wait_mask masked-IsKept)))
          (λ bad. rw bad (answered-IsKept wdf pp calm request _ refl))
      where
        masked : PortPair Queue
        masked = record pp {
          signal_state = record (pp.signal_state) {
            wait_mask = get32 (input_buffer request 4).1 0;
          };
          wait_mask_queue = purge_queue wdf pp.wait_mask_queue;
        }

        masked-IsKept : IsKept wdf pp [] (held wdf pp.wait_mask_queue) (masked, [])
        masked-IsKept = record {
          calm = record {
            to_com = calm.to_com;
            to_companion = calm.to_companion;
            com_writes = calm.com_writes;
            comp_writes = calm.comp_writes;
            signals = calm.signals;
            masks = aborted_there true pp.wait_mask_queue ∙ calm.masks;
          };
          same = refl;
          once = λ weight. omega (arith, total-aborted weight true pp.wait_mask_queue);
        }

    pub immediate_char-IsKept : IsKept wdf pp (request ∷ []) [] (immediate_char wdf pp request)
    unfolding immediate_char
    immediate_char-IsKept =
        with_input_cases wdf pp (IsKept wdf pp (request ∷ []) []) request 1 _
          (λ ok.
            let room = wdf.input_length request 1 ok in
            let (v, size, _) =
              write_refines calm.to_companion.valid (input_buffer request 1).1 1 room.0 in
            to_companion-IsKept wdf pp calm pp.perf_stats (
              drain_peer-Tended wdf pp.com_write_queue pp.comp_read_queue calm.to_companion
                calm.com_writes request (complete request success) refl v size))
          (λ bad. answered-IsKept wdf pp calm request _ refl)

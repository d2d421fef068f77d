-- ===== src/Com/Queues/Purging.antt =====
-- What IOCTL_SERIAL_PURGE and IOCTL_SERIAL_IMMEDIATE_CHAR do to the rings and to those who wait.
use ghostcom.Base.{
  ℕ, Bool, true, false, ◌≡◌, ◌≢◌, refl, ap, sym, ◌∙◌, arith, bit_and, if◌then◌else◌,
}
use ghostcom.Base.{
  ◌⊎◌, ◌≤◌, ◌-◌, min, take, append-nil, inl, inr, Option, none, some, List, [], ◌∷◌, ◌++◌, length,
}
use ghostcom.Status.{nt_success, success}
use ghostcom.Ring.{Ring, flush, write}
use ghostcom.Ring.Inv.{IsValid}
use ghostcom.Ring.Contents.{contents}
use ghostcom.Ring.Reading.{flush_refines}
use ghostcom.Ring.Writing.{write_refines}
use ghostcom.Ring.Fifo
use ghostcom.Wdf.{Wdf, Completion, complete, held, requests, received}
use ghostcom.Pair.{PortPair}
use ghostcom.Ntddser.{purge_txabort, purge_rxabort, purge_txclear, purge_rxclear}
use ghostcom.Drain.Moved.{IsFull, drain_peer-Served}
use ghostcom.Drain.{drain_peer}
use ghostcom.Drain.Reads.{Served}
use ghostcom.Transfer.Flow.{IsSettled}
use ghostcom.Buffers.{with_input}
use ghostcom.Com.Lines.{is_set}
use ghostcom.Com.Waits.{purge_queue}
use ghostcom.Com.Queues.{purged, immediate_char}

module _ (wdf : Wdf) where
  open wdf use {Request, Queue, input_buffer}

  pub held-purge_queue : (queue : Option Queue) → held wdf (purge_queue wdf queue) ≡ []
  unfolding purge_queue
  held-purge_queue none = refl
  held-purge_queue (some queue) = wdf.start_pending (wdf.purge queue) ∙ wdf.purge_empty queue

  aborted :
      (b : Bool) (queue : Option Queue)
      → held wdf (if b then purge_queue wdf queue else queue) ≡ (if b then [] else held wdf queue)
  aborted true queue = held-purge_queue queue
  aborted false queue = refl

  cleared :
      (b : Bool) {ring : Ring}
      → IsValid ring
      → contents (if b then flush ring else ring) ≡ (if b then [] else contents ring)
  cleared true v = (flush_refines v).2
  cleared false v = refl

  nothing_done :
      (done : List (Completion Request)) (left : List Request)
      → requests done ++ left ≡ []
      → done ≡ []
  nothing_done [] left h = refl
  nothing_done (c ∷ done) left h = absurd (omega (arith, ap length h))

  -- A full ring takes no byte.
  refused :
      {ring : Ring} (bytes : List ℕ)
      → IsValid ring
      → IsFull ring
      → 1 ≤ length bytes
      → contents (write ring bytes 1).1 ≡ contents ring
  unfolding Fifo.write
  refused {ring} bytes v full enough =
      let none_in : min 1 (ring.size - 1 - length (contents ring)) ≡ 0 = omega (arith, full) in
      ap (λ p. p.1) (write_refines v bytes 1 enough).2
      ∙ ap (λ n. contents ring ++ take n bytes) none_in
      ∙ append-nil (contents ring)

  stranded :
      {ring : Ring} {writes : List Request}
      → IsValid ring
      → 2 ≤ ring.size
      → writes ≢ []
      → IsFull (flush ring) ⊎ (writes ≡ [])
      → ⊥
  stranded {ring} v room waiting (inl full) =
      let (_, size, empty) = flush_refines v in omega (arith, full, size, ap length empty, room)
  stranded v room waiting (inr e) = waiting e

  module _ (pp : PortPair Queue) (flags : ℕ) where
    -- On valid rings PURGE empties just the rings whose CLEAR flag is set and cancels just
    -- the waiting COM reads or writes whose ABORT flag is set; nothing else of the pair
    -- changes, the waiting requests of the companion and the waits on the mask included.
    pub purged_lem :
        IsValid pp.com_to_companion
        → IsValid pp.companion_to_com
        → let pp' = purged wdf pp flags in
          (pp' ≡ record pp {
            com_to_companion = pp'.com_to_companion;
            companion_to_com = pp'.companion_to_com;
            com_write_queue = pp'.com_write_queue;
            com_read_queue = pp'.com_read_queue;
          })
          × (contents pp'.com_to_companion
              ≡ (if is_set (bit_and flags purge_txclear) then [] else contents pp.com_to_companion))
          × (contents pp'.companion_to_com
              ≡ (if is_set (bit_and flags purge_rxclear) then [] else contents pp.companion_to_com))
          × (held wdf pp'.com_write_queue
              ≡ (if is_set (bit_and flags purge_txabort) then [] else held wdf pp.com_write_queue))
          × (held wdf pp'.com_read_queue
              ≡ (if is_set (bit_and flags purge_rxabort) then [] else held wdf pp.com_read_queue))
    unfolding purged
    purged_lem v v' = (
      refl,
      cleared (is_set (bit_and flags purge_txclear)) v,
      cleared (is_set (bit_and flags purge_rxclear)) v',
      aborted (is_set (bit_and flags purge_txabort)) pp.com_write_queue,
      aborted (is_set (bit_and flags purge_rxabort)) pp.com_read_queue,
    )

    -- PURGE with RXCLEAR, while a write of the companion waits and the ring to the COM side
    -- is valid and has a size of 2 at least, empties that ring but leaves its direction
    -- unsettled: the write goes on waiting though there is room.
    pub purged-strands :
        IsValid pp.companion_to_com
        → is_set (bit_and flags purge_rxclear) ≡ true
        → 2 ≤ pp.companion_to_com.size
        → held wdf pp.comp_write_queue ≢ []
        → let pp' = purged wdf pp flags in
          (contents pp'.companion_to_com ≡ [])
          × ¬ IsSettled wdf pp'.companion_to_com
              (held wdf pp'.com_read_queue)
              (held wdf pp'.comp_write_queue)
    unfolding purged
    purged-strands v clear room waiting =
        rw clear ((flush_refines v).2, λ settled. stranded v room waiting settled.writers)

  module _ (pp : PortPair Queue) where
    -- On a settled direction whose ring is full and has a size of 2 at least, the character
    -- of an IMMEDIATE_CHAR request with an input buffer is in no way passed on (the bytes
    -- held are the same, and nobody is served) and yet the request succeeds.
    pub immediate_char-drops :
        (r : Request)
        → IsSettled wdf pp.com_to_companion
            (held wdf pp.comp_read_queue)
            (held wdf pp.com_write_queue)
        → IsFull pp.com_to_companion
        → 2 ≤ pp.com_to_companion.size
        → nt_success (input_buffer r 1).0 ≡ true
        → let (pp', done) = immediate_char wdf pp r in
          (contents pp'.com_to_companion ≡ contents pp.com_to_companion)
          × (done ≡ complete r success ∷ [])
    unfolding immediate_char with_input
    immediate_char-drops r s full size ok =
        rw (ok, with_input)
          (
            sym (ap (λ d. received d ++ contents out.0) none_done)
                ∙ served.bytes
                ∙ refused bytes s.valid full (wdf.input_length r 1 ok).0,
            ap (λ d. d ++ (complete r success ∷ [])) none_done,
          )
      where
        bytes : List ℕ
        bytes = (input_buffer r 1).1

        v : IsValid (write pp.com_to_companion bytes 1).1
        v = (write_refines s.valid bytes 1 (wdf.input_length r 1 ok).0).0

        out : Ring × Option Queue × List (Completion Request)
        out = drain_peer wdf (write pp.com_to_companion bytes 1).1 pp.comp_read_queue

        served :
            Served wdf
              (write pp.com_to_companion bytes 1).1
              (held wdf pp.comp_read_queue)
              out.0
              (held wdf out.1)
              out.2
        served = drain_peer-Served wdf pp.comp_read_queue v

        nobody :
            (contents pp.com_to_companion ≡ []) ⊎ (held wdf pp.comp_read_queue ≡ [])
            → held wdf pp.comp_read_queue ≡ []
        nobody (inl empty) = absurd (omega (arith, full, size, ap length empty))
        nobody (inr e) = e

        none_done : out.2 ≡ []
        none_done = nothing_done out.2 _ (served.order ∙ nobody s.readers)

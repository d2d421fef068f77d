-- ===== src/Session/Calm.antt =====
-- What holds of a pair between any two requests, and what one or more requests keep.
use ghostcom.Base.{ℕ, ◌+◌, ◌≡◌, sym, ap, subst, ◌∙◌, arith, ◌⊎◌, true, Bool}
use ghostcom.Base.{List, [], ◌++◌, Option, is_there, total, total-append}
use ghostcom.Ring.{Ring}
use ghostcom.Ring.Inv.{IsValid}
use ghostcom.Ring.Contents.{contents}
use ghostcom.Wdf.{Wdf, Completion, held, requests, requests-append}
use ghostcom.Pair.{PortPair, SignalState}
use ghostcom.Signal.{check_wait_mask}
use ghostcom.Signal.Changed.{check_wait_mask_frame, check_wait_mask-once}
use ghostcom.Signal.There.{check_wait_mask_there}

module _ (wdf : Wdf) where
  open wdf use {Request, Queue}

  -- A ring and the reads that wait on it: no read waits while there are bytes.
  pub record IsIdle (ring : Ring) (reads : Option Queue) : Type 0 where
    pub valid : IsValid ring
    pub readers : (contents ring ≡ []) ⊎ (held wdf reads ≡ [])
    pub there : is_there reads ≡ true

  -- Both directions are idle, and all six queues are there.
  pub record IsCalm (pp : PortPair Queue) : Type 0 where
    pub to_com : IsIdle pp.companion_to_com pp.com_read_queue
    pub to_companion : IsIdle pp.com_to_companion pp.comp_read_queue
    pub com_writes : is_there pp.com_write_queue ≡ true
    pub comp_writes : is_there pp.comp_write_queue ≡ true
    pub signals : is_there pp.signal_wait_queue ≡ true
    pub masks : is_there pp.wait_mask_queue ≡ true

  -- The signal state, the open flags and the references do not matter to that.
  pub IsCalm-flags :
      {pp : PortPair Queue} (state : SignalState) (com_side comp_side count : ℕ)
      → IsCalm pp
      → IsCalm (record pp {
        signal_state = state;
        com_side_open = com_side;
        companion_side_open = comp_side;
        ref_count = count;
      })
  IsCalm-flags state com_side comp_side count calm = record {
    to_com = calm.to_com;
    to_companion = calm.to_companion;
    com_writes = calm.com_writes;
    comp_writes = calm.comp_writes;
    signals = calm.signals;
    masks = calm.masks;
  }

  -- The weights of the requests that the six queues hold, added up.
  abbrev pub load : (Request → ℕ) → PortPair Queue → ℕ
  load weight pp =
      total weight (held wdf pp.com_read_queue)
      + total weight (held wdf pp.com_write_queue)
      + total weight (held wdf pp.comp_read_queue)
      + total weight (held wdf pp.comp_write_queue)
      + total weight (held wdf pp.signal_wait_queue)
      + total weight (held wdf pp.wait_mask_queue)

  -- The numbers, the flags, the count of references, and the sizes of the rings.
  abbrev pub identity_of : PortPair Queue → ℕ × ℕ × Bool × ℕ × ℕ × ℕ × ℕ × ℕ
  identity_of pp = (
    pp.port_number, pp.companion_index, pp.active, pp.com_side_open, pp.companion_side_open,
    pp.ref_count, pp.com_to_companion.size, pp.companion_to_com.size,
  )

  -- A calm pair is left, the same one; and by any weights, what was completed, what was cancelled and
  -- what waits are together what came and what waited: each request is one of the three, once.
  pub record IsKept (pp : PortPair Queue) (came gone : List Request)
      (out : PortPair Queue × List (Completion Request)) : Type 0 where
    pub calm : IsCalm out.0
    pub same : identity_of out.0 ≡ identity_of pp
    pub once :
        (weight : Request → ℕ)
        → total weight (requests out.1) + total weight gone + load weight out.0
          ≡ total weight came + load weight pp

  module _ {pp : PortPair Queue} {came gone : List Request} (after : PortPair Queue)
      (log : List (Completion Request)) (events : ℕ) where
    -- The waits of the mask are told after that.
    pub check_wait_mask-IsKept :
        IsKept pp came gone (after, log)
        → IsKept pp came gone
            ((check_wait_mask wdf after events).0, log ++ (check_wait_mask wdf after events).1)
    check_wait_mask-IsKept k = record {
      calm = subst IsCalm (sym frame) (record {
        to_com = k.calm.to_com;
        to_companion = k.calm.to_companion;
        com_writes = k.calm.com_writes;
        comp_writes = k.calm.comp_writes;
        signals = k.calm.signals;
        masks = check_wait_mask_there wdf after events ∙ k.calm.masks;
      });
      same = ap identity_of frame ∙ k.same;
      once = λ weight. omega (
        arith,
        k.once weight,
        ap (load weight) frame,
        ap (total weight) (requests-append log told.1),
        total-append weight (requests log) (requests told.1),
        ap (total weight) (check_wait_mask-once wdf after events),
        total-append weight (requests told.1) (held wdf told.0.wait_mask_queue),
      );
    }
      where
        told : PortPair Queue × List (Completion Request)
        told = check_wait_mask wdf after events

        frame : told.0 ≡ record after { wait_mask_queue = told.0.wait_mask_queue }
        frame = check_wait_mask_frame wdf after events

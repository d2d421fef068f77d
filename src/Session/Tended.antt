-- ===== src/Session/Tended.antt =====
-- One request on one direction that need not be settled: the steps of the data handlers.
use ghostcom.Base.{ℕ, ◌+◌, ◌<◌, ◌≡◌, refl, ap, ◌∙◌, arith, inl, inr, ◌⊎◌, true, Bool-cases}
use ghostcom.Base.{List, [], ◌∷◌, ◌++◌, Option, none, some, length, length-append}
use ghostcom.Base.{is_there, total, total-append, total-Perm}
use ghostcom.Status.{nt_success}
use ghostcom.Ring.{Ring}
use ghostcom.Ring.Inv.{IsValid}
use ghostcom.Ring.Contents.{contents}
use ghostcom.Wdf.{Wdf, Completion, held, requests, requests-append}
use ghostcom.Drain.{drain_peer}
use ghostcom.Drain.Moved.{Moved, drain_peer-Served}
use ghostcom.Drain.There.{drain_peer_there, drain_writes_to_ring_there}
use ghostcom.Transfer.{Ends, pend, unblock}
use ghostcom.Transfer.Steps.{Ends-map, unblock-Moved}
use ghostcom.Session.Calm.{IsIdle}

module _ (wdf : Wdf) where
  open wdf use {Request, Queue, pending}

  -- The direction is left idle, with its queue of writes; what is completed and what waits are what
  -- came and what waited.
  pub record Tended (ring : Ring) (writes reads : Option Queue) (came : List Request) (ring' : Ring)
      (writes' reads' : Option Queue) (done : List (Completion Request)) : Type 0 where
    pub idle : IsIdle wdf ring' reads'
    pub writers : is_there writes' ≡ true
    pub size : ring'.size ≡ ring.size
    pub once :
        (weight : Request → ℕ)
        → total weight (requests done)
            + total weight (held wdf writes')
            + total weight (held wdf reads')
          ≡ total weight came + total weight (held wdf writes) + total weight (held wdf reads)

  -- A request was put in a queue that was there, or completed.
  pub record IsPended (request : Request) (queue : Option Queue)
      (p : Option Queue × List (Completion Request)) : Type 0 where
    pub there : is_there p.0 ≡ true
    pub once :
        (weight : Request → ℕ)
        → total weight (requests p.1) + total weight (held wdf p.0)
          ≡ weight request + total weight (held wdf queue)

  pub pend-IsPended :
      (request : Request) (queue : Option Queue)
      → is_there queue ≡ true
      → Ends (IsPended request queue) (pend wdf request queue)
  unfolding pend
  pend-IsPended request none h = absurd (cc h)
  pend-IsPended request (some queue) h =
      elim (Bool-cases (nt_success (wdf.forward request queue).0)) [
        | inl ok ↦
            rw (ok, pend)
              (record {
                there = refl;
                once = λ weight. omega (
                  arith,
                  ap (total weight) (wdf.forward_ok request queue ok),
                  total-append weight (pending queue) (request ∷ []),
                );
              })
        | inr bad ↦
            rw (bad, pend)
              (record {
                there = refl;
                once = λ weight.
                    omega (arith, ap (total weight) (wdf.forward_failed request queue bad));
              })
      ]

  unblock_there :
      (ring : Ring) (writes reads : Option Queue)
      → (is_there (unblock wdf ring writes reads).1 ≡ is_there writes)
        × (is_there (unblock wdf ring writes reads).2 ≡ is_there reads)
  unfolding unblock
  unblock_there ring none reads = (refl, refl)
  unblock_there ring (some queue) reads = (refl, drain_writes_to_ring_there wdf ring queue reads)

  module _ {ring : Ring} (writes reads : Option Queue) (idle : IsIdle wdf ring reads)
      (writers : is_there writes ≡ true) (request : Request) where
    -- The request is completed, and nothing else is done.
    pub Tended-answered :
        (c : Completion Request)
        → c.request ≡ request
        → Tended ring writes reads (request ∷ []) ring writes reads (c ∷ [])
    Tended-answered c e = record {
      idle = idle;
      writers = writers;
      size = refl;
      once = λ weight. omega (arith, ap weight e);
    }

    pub pend_read-Tended :
        contents ring ≡ []
        → Ends
            (λ (p : Option Queue × List (Completion Request)).
              Tended ring writes reads (request ∷ []) ring writes p.0 p.1)
            (pend wdf request reads)
    pend_read-Tended empty =
        Ends-map (pend wdf request reads)
          (λ p (h : IsPended request reads p). record {
            idle = record { valid = idle.valid; readers = inl empty; there = h.there };
            writers = writers;
            size = refl;
            once = λ weight. omega (arith, h.once weight);
          })
          (pend-IsPended request reads idle.there)

    pub pend_write-Tended :
        Ends
          (λ (p : Option Queue × List (Completion Request)).
            Tended ring writes reads (request ∷ []) ring p.0 reads p.1)
          (pend wdf request writes)
    pend_write-Tended =
        Ends-map (pend wdf request writes)
          (λ p (h : IsPended request writes p). record {
            idle = idle;
            writers = h.there;
            size = refl;
            once = λ weight. omega (arith, h.once weight);
          })
          (pend-IsPended request writes writers)

    -- A read that takes bytes, after which the waiting writes are drained.
    pub unblock-Tended :
        {after : Ring} (got : List ℕ) (c : Completion Request)
        → c.request ≡ request
        → IsValid after
        → after.size ≡ ring.size
        → 0 < length got
        → got ++ contents after ≡ contents ring
        → let (ring', writes', reads', done) = unblock wdf after writes reads in
          Tended ring writes reads (request ∷ []) ring' writes' reads' (done ++ (c ∷ []))
    unblock-Tended {after} got c e v same some_got split = record {
      idle = record {
        valid = m.valid;
        readers = inr (m.quiet (nobody idle.readers)).1;
        there = (unblock_there after writes reads).1 ∙ idle.there;
      };
      writers = (unblock_there after writes reads).0 ∙ writers;
      size = m.size ∙ same;
      once = λ weight. omega (
        arith,
        ap weight e,
        ap (total weight) (requests-append moved.3 (c ∷ [])),
        total-append weight (requests moved.3) (c.request ∷ []),
        total-Perm weight m.once,
        total-append weight (requests moved.3) (held wdf moved.1 ++ held wdf moved.2),
        total-append weight (held wdf moved.1) (held wdf moved.2),
        total-append weight (held wdf writes) (held wdf reads),
      );
    }
      where
        moved : Ring × Option Queue × Option Queue × List (Completion Request)
        moved = unblock wdf after writes reads

        m :
            Moved wdf after
              (held wdf writes)
              (held wdf reads)
              moved.0
              (held wdf moved.1)
              (held wdf moved.2)
              moved.3
        m = unblock-Moved wdf writes reads v

        nobody : (contents ring ≡ []) ⊎ (held wdf reads ≡ []) → held wdf reads ≡ []
        nobody (inl empty) =
            absurd (omega (arith, ap length (split ∙ empty), length-append got (contents after)))
        nobody (inr e) = e

    -- A write that puts bytes in, after which the waiting reads are drained.
    pub drain_peer-Tended :
        {after : Ring} (c : Completion Request)
        → c.request ≡ request
        → IsValid after
        → after.size ≡ ring.size
        → let (ring', reads', done) = drain_peer wdf after reads in
          Tended ring writes reads (request ∷ []) ring' writes reads' (done ++ (c ∷ []))
    drain_peer-Tended {after} c e v same =
        let served = drain_peer-Served wdf reads v in
        let done = (drain_peer wdf after reads).2 in
        let left = held wdf (drain_peer wdf after reads).1 in
        record {
          idle = record {
            valid = served.valid;
            readers = served.settled;
            there = drain_peer_there wdf after reads ∙ idle.there;
          };
          writers = writers;
          size = served.size ∙ same;
          once = λ weight. omega (
            arith,
            ap weight e,
            ap (total weight) (requests-append done (c ∷ [])),
            total-append weight (requests done) (c.request ∷ []),
            ap (total weight) served.order,
            total-append weight (requests done) left,
          );
        }

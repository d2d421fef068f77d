-- ===== src/Transfer/Steps.antt =====
-- The steps of the data handlers, in terms of the contract of a direction.
use ghostcom.Base.{ℕ, ◌-◌, ◌≤◌, ◌<◌, ◌≡◌, ◌≢◌, refl, ap, ap₂, sym, ◌∙◌, arith, inl, inr, min}
use ghostcom.Base.{List, [], ◌++◌, none, some, Option, length, take, drop, true, false, Bool-cases}
use ghostcom.Base.{ltb, ltb→lt, ltb→le, length-take, take-append-drop, nil_of_length}
use ghostcom.Status.{nt_success}
use ghostcom.Ring.{Ring, read, write}
use ghostcom.Ring.Fifo
use ghostcom.Ring.Inv.{IsValid, used-lt}
use ghostcom.Ring.Contents.{contents, length-contents}
use ghostcom.Ring.Reading.{read_refines}
use ghostcom.Ring.Writing.{write_refines}
use ghostcom.Wdf.{Wdf, Completion, held}
use ghostcom.Pair.{PortPair}
use ghostcom.Drain.Moved.{IsFull, Moved, Moved-now}
use ghostcom.Drain.Writes.{drain_writes_to_ring-Moved}
use ghostcom.Transfer.{Ends, pend, put_back, unblock}
use ghostcom.Transfer.Flow.{IsSettled, Flow, Flow-nothing, Flow-pended_read, Flow-pended_write}

module _ {ring : Ring} (v : IsValid ring) (len : ℕ) where
  given : (read ring len).0 ≡ min len (length (contents ring))
  unfolding Fifo.read
  given = ap (λ p. p.0) (read_refines v len).2

  -- A read that gives bytes.
  pub read_some :
      ltb 0 (read ring len).0 ≡ true
      → let (n, got, after) = read ring len in
        (0 < n) × (length got ≡ n) × (got ++ contents after ≡ contents ring)
  unfolding Fifo.read
  read_some h = (
    ltb→lt 0 (read ring len).0 h,
    ap length taken
        ∙ omega (arith, length-take (min len (length (contents ring))) (contents ring), given),
    ap₂ ◌++◌ taken left ∙ take-append-drop (min len (length (contents ring))) (contents ring),
  )
    where
      taken : (read ring len).1 ≡ take (min len (length (contents ring))) (contents ring)
      taken = ap (λ p. p.1) (read_refines v len).2

      left : contents (read ring len).2 ≡ drop (min len (length (contents ring))) (contents ring)
      left = ap (λ p. p.2) (read_refines v len).2

  -- A read that asks for bytes and gives none.
  pub read_none : ltb 0 (read ring len).0 ≡ false → 1 ≤ len → contents ring ≡ []
  read_none h asked =
      nil_of_length (contents ring) (ground (arith, given, ltb→le 0 (read ring len).0 h))

  module _ (bytes : List ℕ) (enough : len ≤ length bytes) where
    put : (write ring bytes len).0 ≡ min len (ring.size - 1 - length (contents ring))
    unfolding Fifo.write
    put = ap (λ p. p.0) (write_refines v bytes len enough).2

    -- A write that puts bytes in.
    pub write_some :
        ltb 0 (write ring bytes len).0 ≡ true
        → let (n, after) = write ring bytes len in
          (¬ IsFull ring) × (contents after ≡ contents ring ++ take n bytes)
    unfolding Fifo.write
    write_some h = (
      λ full. absurd (omega (arith, put, ltb→lt 0 (write ring bytes len).0 h)),
      ap (λ p. p.1) (write_refines v bytes len enough).2
          ∙ ap (λ n. contents ring ++ take n bytes) (sym put),
    )

    -- A write that has bytes and puts none in.
    pub write_none : ltb 0 (write ring bytes len).0 ≡ false → 1 ≤ len → IsFull ring
    write_none h asked =
        omega (arith, put, ltb→le 0 (write ring bytes len).0 h, length-contents ring, used-lt v)

-- What holds of every result may be weakened.
pub Ends-map :
    {A : Type 0} {P Q : A → Type 0} (m : Option A) → ((a : A) → P a → Q a) → Ends P m → Ends Q m
Ends-map none weaker h = h
Ends-map (some a) weaker h = weaker a h

module _ (wdf : Wdf) where
  open wdf use {Request, Queue, pending}

  -- What holds after a request was put in its queue holds of the pair that has the queue back.
  pub put_back-Ends :
      (P : PortPair Queue × List (Completion Request) → Type 0)
      (update : Option Queue → PortPair Queue)
      (m : Option (Option Queue × List (Completion Request)))
      → Ends (λ p. P (update p.0, p.1)) m
      → Ends P (put_back wdf update m)
  put_back-Ends P update none h = h
  put_back-Ends P update (some (queue, done)) h = h

  pub unblock-Moved :
      {ring : Ring} (writes reads : Option Queue)
      → IsValid ring
      → let (ring', writes', reads', done) = unblock wdf ring writes reads in
        Moved wdf ring
          (held wdf writes)
          (held wdf reads)
          ring'
          (held wdf writes')
          (held wdf reads')
          done
  unfolding unblock
  unblock-Moved none reads v = Moved-now wdf v (inr refl)
  unblock-Moved (some writes) reads v = drain_writes_to_ring-Moved wdf writes reads v

  module _ {ring : Ring} (request : Request) where
    pub pend_read-Flow :
        {writes : List Request} (handle : Option Queue)
        → handle ≢ none
        → IsSettled wdf ring (held wdf handle) writes
        → contents ring ≡ []
        → Ends
            (λ (p : Option Queue × List (Completion Request)).
              Flow wdf ring (held wdf handle) writes request ring (held wdf p.0) writes p.1)
            (pend wdf request handle)
    unfolding pend
    pend_read-Flow none there s empty = absurd (there refl)
    pend_read-Flow (some queue) there s empty =
        elim (Bool-cases (nt_success (wdf.forward request queue).0)) [
          | inl ok ↦ rw (ok, wdf.forward_ok request queue ok) (Flow-pended_read wdf s request empty)
          | inr bad ↦ rw (bad, wdf.forward_failed request queue bad) (Flow-nothing wdf s request _)
        ]

    pub pend_write-Flow :
        {reads : List Request} (handle : Option Queue)
        → handle ≢ none
        → IsSettled wdf ring reads (held wdf handle)
        → IsFull ring
        → Ends
            (λ (p : Option Queue × List (Completion Request)).
              Flow wdf ring reads (held wdf handle) request ring reads (held wdf p.0) p.1)
            (pend wdf request handle)
    unfolding pend
    pend_write-Flow none there s full = absurd (there refl)
    pend_write-Flow (some queue) there s full =
        elim (Bool-cases (nt_success (wdf.forward request queue).0)) [
          | inl ok ↦ rw (ok, wdf.forward_ok request queue ok) (Flow-pended_write wdf s request full)
          | inr bad ↦ rw (bad, wdf.forward_failed request queue bad) (Flow-nothing wdf s request _)
        ]

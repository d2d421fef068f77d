-- ===== src/Drain/Reads.antt =====
-- GcomDrainRingToReads: whom it serves, with what, and when it stops.
use ghostcom.Base.{
  ℕ, zero, suc, ◌^◌, ◌≤◌, ◌<◌, ◌≡◌, refl, ap, ap₂, sym, ◌∙◌, arith, min, ◌⊎◌, inl, inr,
}
use ghostcom.Base.{
  List, [], ◌∷◌, ◌++◌, append_assoc, Bool-cases, true, false, none, some, ltb, ◌==◌, length,
}
use ghostcom.Base.{take-append-drop, lt→ltb, nil_of_length}
use ghostcom.Status.{Status, nt_success, success}
use ghostcom.Word.{ulong}
use ghostcom.Ring.{Ring, read, is_empty}
use ghostcom.Ring.Fifo
use ghostcom.Ring.Inv.{IsValid}
use ghostcom.Ring.Contents.{contents, is_empty-contents}
use ghostcom.Ring.Reading.{read_refines}
use ghostcom.Wdf.{
  Wdf, Completion, complete, complete_bytes, requests, received, accepted, queue_cases,
}
use ghostcom.Drain.{drain_reads, drain_ring_to_reads}

module _ (wdf : Wdf) where
  open wdf use {Request, Queue, pending, output_buffer}

  -- What a drain of reads has done, from a ring and the pending requests `before` to what it
  -- leaves: the requests completed and those left are those that were pending, in order; the
  -- bytes handed out and those left are the bytes held, in order; and either no byte or no
  -- request is left.
  pub record Served (ring : Ring) (before : List Request) (ring' : Ring) (left : List Request)
      (done : List (Completion Request)) : Type 0 where
    pub valid : IsValid ring'
    pub size : ring'.size ≡ ring.size
    pub order : requests done ++ left ≡ before
    pub bytes : received done ++ contents ring' ≡ contents ring
    pub no_writes : accepted wdf done ≡ []
    pub settled : (contents ring' ≡ []) ⊎ (left ≡ [])

  abbrev ServedOut : Ring → Queue → Ring × Queue × List (Completion Request) → Type 0
  ServedOut ring queue out = Served ring (pending queue) out.0 (pending out.1) out.2

  ltb_pos : {n : ℕ} → 0 < n → ltb 0 n ≡ true
  ltb_pos {n} h = lt→ltb 0 n h

  ne_zero : (n : ℕ) → (n == 0) ≡ false → 0 < n
  ne_zero n h = ground arith

  empty_contents : {ring : Ring} → IsValid ring → is_empty ring ≡ true → contents ring ≡ []
  empty_contents {ring} v h = nil_of_length (contents ring) (sym (is_empty-contents v) ∙ h)

  pub Served-now :
      {ring : Ring} {before : List Request}
      → IsValid ring
      → (contents ring ≡ []) ⊎ (before ≡ [])
      → Served ring before ring before []
  Served-now v end = record {
    valid = v;
    size = refl;
    order = refl;
    bytes = refl;
    no_writes = refl;
    settled = end;
  }

  -- A request completed with an error leaves the rest of the work.
  Served-bad :
      {ring ring' : Ring} {before rest left : List Request} {done : List (Completion Request)}
      (request : Request) (st : Status)
      → before ≡ request ∷ rest
      → Served ring rest ring' left done
      → Served ring before ring' left (complete request st ∷ done)
  Served-bad request st here s = record {
    valid = s.valid;
    size = s.size;
    order = ap (λ t. request ∷ t) s.order ∙ sym here;
    bytes = s.bytes;
    no_writes = s.no_writes;
    settled = s.settled;
  }

  -- So does one that takes bytes.
  Served-read :
      {ring after ring' : Ring} {before rest left : List Request} {done : List (Completion Request)}
      (request : Request) (n : ℕ) (got : List ℕ)
      → before ≡ request ∷ rest
      → after.size ≡ ring.size
      → got ++ contents after ≡ contents ring
      → Served after rest ring' left done
      → Served ring before ring' left (complete_bytes request success n got ∷ done)
  Served-read {ring'} {done} request n got here same split s = record {
    valid = s.valid;
    size = s.size ∙ same;
    order = ap (λ t. request ∷ t) s.order ∙ sym here;
    bytes = append_assoc got (received done) (contents ring') ∙ ap (λ t. got ++ t) s.bytes ∙ split;
    no_writes = s.no_writes;
    settled = s.settled;
  }

  -- A read of a request with a buffer, from a ring with bytes, gives at least one byte.
  nonempty_read :
      {ring : Ring} (v : IsValid ring) (len : ℕ)
      → is_empty ring ≡ false
      → 1 ≤ len
      → len < 2 ^ 32
      → (ltb 0 (read ring (ulong len)).0 ≡ true)
        × ((read ring (ulong len)).1 ++ contents (read ring (ulong len)).2 ≡ contents ring)
  unfolding Fifo.read
  nonempty_read {ring} v len h low high = (
    ltb_pos (rw given pos),
    ap₂ ◌++◌ (ap (λ p. p.1) step) (ap (λ p. p.2) step) ∙ take-append-drop n (contents ring),
  )
    where
      n : ℕ
      n = min (ulong len) (length (contents ring))

      step :
          ((read ring (ulong len)).0, (read ring (ulong len)).1, contents (read ring (ulong len)).2)
          ≡ Fifo.read (contents ring) (ulong len)
      step = (read_refines v (ulong len)).2

      given : (read ring (ulong len)).0 ≡ min (ulong len) (length (contents ring))
      given = ap (λ p. p.0) step

      held : (length (contents ring) == 0) ≡ false
      held = sym (is_empty-contents v) ∙ h

      pos : 0 < min (ulong len) (length (contents ring))
      pos = omega (arith, ne_zero (length (contents ring)) held)

  module _ (fuel : ℕ) (ring : Ring) (queue : Queue) where
    stop_empty : is_empty ring ≡ true → drain_reads wdf (suc fuel) ring queue ≡ (ring, queue, [])
    unfolding drain_reads
    stop_empty empty = rw (empty, drain_reads) refl

    stop_nobody :
        is_empty ring ≡ false
        → wdf.retrieve_next queue ≡ none
        → drain_reads wdf (suc fuel) ring queue ≡ (ring, queue, [])
    unfolding drain_reads
    stop_nobody bytes e = rw (bytes, e, drain_reads) refl

    go_bad :
        {request : Request} {rest : Queue}
        → is_empty ring ≡ false
        → wdf.retrieve_next queue ≡ some (request, rest)
        → nt_success (output_buffer request 1).0 ≡ false
        → drain_reads wdf (suc fuel) ring queue ≡ (
            let (ring', queue', done) = drain_reads wdf fuel ring rest in
            (ring', queue', complete request (output_buffer request 1).0 ∷ done))
    unfolding drain_reads
    go_bad bytes e bad = rw (bytes, e, bad, drain_reads) refl

    go_served :
        {request : Request} {rest : Queue}
        → is_empty ring ≡ false
        → wdf.retrieve_next queue ≡ some (request, rest)
        → nt_success (output_buffer request 1).0 ≡ true
        → ltb 0 (read ring (ulong (output_buffer request 1).1)).0 ≡ true
        → drain_reads wdf (suc fuel) ring queue ≡ (
            let (n, got, after) = read ring (ulong (output_buffer request 1).1) in
            let (ring', queue', done) = drain_reads wdf fuel after rest in
            (ring', queue', complete_bytes request success n got ∷ done))
    unfolding drain_reads
    go_served bytes e ok some_read = rw (bytes, e, ok, some_read, drain_reads) refl

  drain_reads-Served :
      (fuel : ℕ) {ring : Ring} (queue : Queue)
      → IsValid ring
      → length (pending queue) < fuel
      → ServedOut ring queue (drain_reads wdf fuel ring queue)
  unfolding drain_reads
  drain_reads-Served zero queue v h = absurd (omega arith)
  drain_reads-Served (suc fuel) {ring} queue v h = elim (Bool-cases (is_empty ring)) [
    | inl empty ↦
        rw (stop_empty fuel ring queue empty) (Served-now v (inl (empty_contents v empty)))
    | inr bytes ↦ elim (queue_cases wdf queue) [
      | inl (nobody, e) ↦ rw (stop_nobody fuel ring queue bytes e) (Served-now v (inr nobody))
      | inr (request, rest, e, here) ↦
          let left : length (pending rest) < fuel = omega (arith, ap length here) in
          elim (Bool-cases (nt_success (output_buffer request 1).0)) [
            | inl ok ↦
                let len = (output_buffer request 1).1 in
                let room = wdf.output_length request 1 ok in
                let got = nonempty_read v len bytes room.0 room.1 in
                let step = read_refines v (ulong len) in
                rw (go_served fuel ring queue bytes e ok got.0) (
                  Served-read request _ _ here step.1 got.1
                    (drain_reads-Served fuel {ring = (read ring (ulong len)).2} rest step.0 left))
            | inr bad ↦
                rw (go_bad fuel ring queue bytes e bad)
                  (Served-bad request _ here (drain_reads-Served fuel {ring = ring} rest v left))
          ]
    ]
  ]

  -- On a valid ring GcomDrainRingToReads completes the oldest pending reads and keeps the
  -- others, in order; the bytes handed out and those left are the bytes held, in order; it
  -- stops when no byte or no request is left; and the ring stays valid.
  pub drain_ring_to_reads-Served :
      {ring : Ring} (queue : Queue)
      → IsValid ring
      → let (ring', queue', done) = drain_ring_to_reads wdf ring queue in
        Served ring (pending queue) ring' (pending queue') done
  unfolding drain_ring_to_reads
  drain_ring_to_reads-Served queue v =
      drain_reads-Served (suc (length (pending queue))) queue v (omega arith)

-- ===== src/Transfer/Flow.antt =====
-- The contract of one request on one direction.
use mathlib.Core.List.{Perm, perm_middle, perm_append_singleton}
use mathlib.Core.List.Perm
use ghostcom.Base.{ℕ, ◌<◌, ◌≡◌, refl, ap, ap₂, sym, ◌∙◌, arith, ◌⊎◌, inl, inr}
use ghostcom.Base.{List, [], ◌∷◌, ◌++◌, append-nil, append_assoc, length, length-append, take}
use ghostcom.Status.{Status, success}
use ghostcom.Ring.{Ring}
use ghostcom.Ring.Inv.{IsValid}
use ghostcom.Ring.Contents.{contents}
use ghostcom.Wdf.{
  Wdf, Completion, complete, complete_count, complete_bytes, requests, received, accepted,
}
use ghostcom.Wdf.{requests-append, received-append, accepted-append}
use ghostcom.Drain.Reads.{Served}
use ghostcom.Drain.Moved.{IsFull, Moved, perm_shuffle}

module _ (wdf : Wdf) where
  open wdf use {Request, Queue, pending, input_buffer}

  -- Between two requests: reads wait only on an empty ring, and writes only on a full one.
  pub record IsSettled (ring : Ring) (reads writes : List Request) : Type 0 where
    pub valid : IsValid ring
    pub readers : (contents ring ≡ []) ⊎ (reads ≡ [])
    pub writers : IsFull ring ⊎ (writes ≡ [])

  -- A request on a settled direction leaves it settled; it and those that waited are completed
  -- once or still wait; and the bytes handed out and those left are those held and those
  -- accepted, in order.
  pub record Flow (ring : Ring) (reads writes : List Request) (request : Request) (ring' : Ring)
      (reads' writes' : List Request) (done : List (Completion Request)) : Type 0 where
    pub settled : IsSettled ring' reads' writes'
    pub size : ring'.size ≡ ring.size
    pub once : Perm (requests done ++ (writes' ++ reads')) (request ∷ (writes ++ reads))
    pub bytes : received done ++ contents ring' ≡ contents ring ++ accepted wdf done

  -- A completion at the end of the log, in front.
  last_request :
      (done : List (Completion Request)) (c : Completion Request) (rest : List Request)
      → Perm (requests (done ++ (c ∷ [])) ++ rest) (c.request ∷ (requests done ++ rest))
  last_request done c rest =
      rw (requests-append done (c ∷ []), append_assoc) (perm_middle (requests done) rest)

  module _ {ring : Ring} {reads writes : List Request} (s : IsSettled ring reads writes)
      (request : Request) where
    -- The request is completed with no byte moved.
    pub Flow-nothing :
        (st : Status) → Flow ring reads writes request ring reads writes (complete request st ∷ [])
    Flow-nothing st = record {
      settled = s;
      size = refl;
      once = Perm.refl _;
      bytes = sym (append-nil (contents ring));
    }

    pub Flow-pended_read :
        contents ring ≡ [] → Flow ring reads writes request ring (reads ++ (request ∷ [])) writes []
    Flow-pended_read empty = record {
      settled = record { valid = s.valid; readers = inl empty; writers = s.writers };
      size = refl;
      once =
          rw (← append_assoc writes reads (request ∷ []))
            (perm_append_singleton request (writes ++ reads));
      bytes = sym (append-nil (contents ring));
    }

    pub Flow-pended_write :
        IsFull ring → Flow ring reads writes request ring reads (writes ++ (request ∷ [])) []
    Flow-pended_write full = record {
      settled = record { valid = s.valid; readers = s.readers; writers = inl full };
      size = refl;
      once = Perm.append_right reads (perm_append_singleton request writes);
      bytes = sym (append-nil (contents ring));
    }

    -- A read that takes bytes, after which the waiting writes are drained.
    pub Flow-read :
        {after ring' : Ring} {reads' writes' : List Request} {done : List (Completion Request)}
        (n : ℕ) (got : List ℕ)
        → 0 < n
        → length got ≡ n
        → after.size ≡ ring.size
        → got ++ contents after ≡ contents ring
        → Moved wdf after writes reads ring' writes' reads' done
        → Flow ring reads writes request ring' reads' writes'
            (done ++ (complete_bytes request success n got ∷ []))
    Flow-read {after} {ring'} {reads'} {writes'} {done} n got pos len same split m = record {
      settled = record { valid = m.valid; readers = m.readers (inr nobody); writers = m.settled };
      size = m.size ∙ same;
      once = Perm.trans (last_request done own (writes' ++ reads')) (Perm.cons request m.once);
      bytes =
          ap (λ t. t ++ contents ring')
            (received-append done (own ∷ []) ∙ ap₂ ◌++◌ (m.quiet nobody).0 (append-nil got))
          ∙ ap (λ t. got ++ t) later
          ∙ sym (append_assoc got (contents after) (accepted wdf done))
          ∙ ap₂ ◌++◌ split
              (sym (append-nil (accepted wdf done)) ∙ sym (accepted-append wdf done (own ∷ [])));
    }
      where
        own : Completion Request
        own = complete_bytes request success n got

        some_bytes : (contents ring ≡ []) ⊎ (reads ≡ []) → reads ≡ []
        some_bytes (inl empty) =
            absurd (omega (arith, ap length (split ∙ empty), length-append got (contents after)))
        some_bytes (inr e) = e

        nobody : reads ≡ []
        nobody = some_bytes s.readers

        later : contents ring' ≡ contents after ++ accepted wdf done
        later = sym (ap (λ t. t ++ contents ring') (m.quiet nobody).0) ∙ m.bytes

    -- A write that puts bytes in, after which the waiting reads are drained.
    pub Flow-write :
        {after ring' : Ring} {reads' : List Request} {done : List (Completion Request)} (n : ℕ)
        → ¬ IsFull ring
        → after.size ≡ ring.size
        → contents after ≡ contents ring ++ take n (input_buffer request 1).1
        → Served wdf after reads ring' reads' done
        → Flow ring reads writes request ring' reads' writes
            (done ++ (complete_count request success n ∷ []))
    Flow-write {after} {ring'} {reads'} {done} n room same put served = record {
      settled = record { valid = served.valid; readers = served.settled; writers = inr no_writer };
      size = served.size ∙ same;
      once =
          Perm.trans (last_request done own (writes ++ reads'))
            (Perm.cons request (rw (← served.order) (perm_shuffle (requests done) writes reads')));
      bytes =
          ap (λ t. t ++ contents ring')
            (received-append done (own ∷ []) ∙ append-nil (received done))
          ∙ served.bytes
          ∙ put
          ∙ ap (λ t. contents ring ++ t)
              (sym (append-nil put_in)
                ∙ ap (λ t. t ++ (put_in ++ [])) (sym served.no_writes)
                ∙ sym (accepted-append wdf done (own ∷ [])));
    }
      where
        own : Completion Request
        own = complete_count request success n

        put_in : List ℕ
        put_in = take n (input_buffer request 1).1

        not_full : IsFull ring ⊎ (writes ≡ []) → writes ≡ []
        not_full (inl full) = absurd (room full)
        not_full (inr e) = e

        no_writer : writes ≡ []
        no_writer = not_full s.writers

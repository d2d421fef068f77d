-- ===== src/Drain/Rounds.antt =====
-- The rounds of the loops that take requests from a queue: they end by themselves.
use ghostcom.Base.{ℕ, zero, suc, ◌<◌, ◌≡◌, refl, ap, arith, inl, inr, Bool-cases}
use ghostcom.Base.{◌∷◌, ◌++◌, Option, length, ltb}
use ghostcom.Status.{nt_success}
use ghostcom.Word.{ulong}
use ghostcom.Ring.{Ring, read, write, is_empty, write_available}
use ghostcom.Wdf.{Wdf, complete, complete_bytes, complete_count, queue_cases}
use ghostcom.Status.{success}
use ghostcom.Drain.{
  drain_reads, drain_ring_to_reads, drain_peer, drain_writes, drain_writes_to_ring,
}

module _ (wdf : Wdf) where
  open wdf use {Request, Queue, pending, retrieve_next, input_buffer, output_buffer}

  drain_reads-rounds :
      (m n : ℕ) (ring : Ring) (queue : Queue)
      → length (pending queue) < m
      → length (pending queue) < n
      → drain_reads wdf m ring queue ≡ drain_reads wdf n ring queue
  unfolding drain_reads
  drain_reads-rounds zero n ring queue h h' = absurd (omega arith)
  drain_reads-rounds (suc m) zero ring queue h h' = absurd (omega arith)
  drain_reads-rounds (suc m) (suc n) ring queue h h' = elim (Bool-cases (is_empty ring)) [
    | inl empty ↦ rw (empty, drain_reads) refl
    | inr bytes ↦ elim (queue_cases wdf queue) [
      | inl (nobody, e) ↦ rw (bytes, e, drain_reads) refl
      | inr (request, rest, e, here) ↦
          let left : length (pending rest) < m = omega (arith, ap length here) in
          let left' : length (pending rest) < n = omega (arith, ap length here) in
          elim (Bool-cases (nt_success (output_buffer request 1).0)) [
            | inr bad ↦
                rw (bytes, e, bad, drain_reads)
                  (ap (λ out. (out.0, out.1, complete request (output_buffer request 1).0 ∷ out.2))
                    (drain_reads-rounds m n ring rest left left'))
            | inl ok ↦
                let (n', got, after) = read ring (ulong (output_buffer request 1).1) in
                elim (Bool-cases (ltb 0 (read ring (ulong (output_buffer request 1).1)).0)) [
                  | inr nothing ↦ rw (bytes, e, ok, nothing, drain_reads) refl
                  | inl some_got ↦
                      rw (bytes, e, ok, some_got, drain_reads)
                        (ap (λ out. (out.0, out.1, complete_bytes request success n' got ∷ out.2))
                          (drain_reads-rounds m n after rest left left'))
                ]
          ]
    ]
  ]

  drain_writes-rounds :
      (m n : ℕ) (ring : Ring) (queue : Queue) (peer : Option Queue)
      → length (pending queue) < m
      → length (pending queue) < n
      → drain_writes wdf m ring queue peer ≡ drain_writes wdf n ring queue peer
  unfolding drain_writes
  drain_writes-rounds zero n ring queue peer h h' = absurd (omega arith)
  drain_writes-rounds (suc m) zero ring queue peer h h' = absurd (omega arith)
  drain_writes-rounds (suc m) (suc n) ring queue peer h h' =
      elim (Bool-cases (ltb 0 (write_available ring))) [
        | inr full ↦ rw (full, drain_writes) refl
        | inl room ↦ elim (queue_cases wdf queue) [
          | inl (nobody, e) ↦ rw (room, e, drain_writes) refl
          | inr (request, rest, e, here) ↦
              let left : length (pending rest) < m = omega (arith, ap length here) in
              let left' : length (pending rest) < n = omega (arith, ap length here) in
              elim (Bool-cases (nt_success (input_buffer request 1).0)) [
                | inr bad ↦
                    rw (room, e, bad, drain_writes)
                      (ap
                        (λ out. (
                          out.0,
                          out.1,
                          out.2,
                          complete request (input_buffer request 1).0 ∷ out.3,
                        ))
                        (drain_writes-rounds m n ring rest peer left left'))
                | inl ok ↦
                    let bytes = (input_buffer request 1).1 in
                    let (n', after) = write ring bytes (ulong (length bytes)) in
                    elim (Bool-cases (ltb 0 (write ring bytes (ulong (length bytes))).0)) [
                      | inr nothing ↦ rw (room, e, ok, nothing, drain_writes) refl
                      | inl put ↦
                          let (ring₁, peer₁, reads) = drain_peer wdf after peer in
                          rw (room, e, ok, put, drain_writes)
                            (ap
                              (λ out. (
                                out.0,
                                out.1,
                                out.2,
                                complete_count request success n' ∷ (reads ++ out.3),
                              ))
                              (drain_writes-rounds m n ring₁ rest peer₁ left left'))
                    ]
              ]
        ]
      ]

  -- The loops of GcomDrainRingToReads and GcomDrainWritesToRing end by themselves: with
  -- whatever bound on the rounds that is above the number of pending requests they do the
  -- same, whatever the ring.
  pub drain_rounds :
      (rounds : ℕ) (ring : Ring) (queue : Queue) (peer : Option Queue)
      → length (pending queue) < rounds
      → (drain_reads wdf rounds ring queue ≡ drain_ring_to_reads wdf ring queue)
        × (drain_writes wdf rounds ring queue peer ≡ drain_writes_to_ring wdf ring queue peer)
  unfolding drain_ring_to_reads drain_writes_to_ring
  drain_rounds rounds ring queue peer h = (
    drain_reads-rounds rounds (suc (length (pending queue))) ring queue h (omega arith),
    drain_writes-rounds rounds (suc (length (pending queue))) ring queue peer h (omega arith),
  )

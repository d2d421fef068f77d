-- ===== src/Drain.antt =====
-- driver/src/portpair.c: GcomDrainRingToReads and GcomDrainWritesToRing.
pub mod Reads
pub mod Moved
pub mod Writes
pub mod There
pub mod Rounds
use ghostcom.Base.{
  ℕ, zero, suc, ◌%◌, ◌^◌, Bool, true, false, Option, none, some, List, [], ◌∷◌, ◌++◌,
}
use ghostcom.Base.{ltb, length}
use ghostcom.Status.{nt_success}
use ghostcom.Word.{ulong}
use ghostcom.Ring.{Ring, read, write, is_empty, write_available}
use ghostcom.Wdf.{Wdf, Completion, complete, complete_count, complete_bytes}
use ghostcom.Status.{success}

module _ (wdf : Wdf) where
  open wdf use {Request, Queue, pending, retrieve_next, forward, output_buffer, input_buffer}

  -- A request goes back to the queue, or is completed with the error.
  requeue : Request → Queue → Queue × List (Completion Request)
  requeue request queue =
      let (st, after) = forward request queue in
      elim (nt_success st) [ true ↦ (after, []) | false ↦ (after, complete request st ∷ []) ]

  -- The loop of GcomDrainRingToReads, with fuel for its rounds.
  pub drain_reads : ℕ → Ring → Queue → Ring × Queue × List (Completion Request)
  drain_reads zero ring queue = (ring, queue, [])
  drain_reads (suc fuel) ring queue = elim (is_empty ring) [
    | true ↦ (ring, queue, [])
    | false ↦ elim (retrieve_next queue) [
      | none ↦ (ring, queue, [])
      | some (request, rest) ↦
          let (st, len) = output_buffer request 1 in
          elim (nt_success st) [
            | false ↦
                let (ring', queue', done) = drain_reads fuel ring rest in
                (ring', queue', complete request st ∷ done)
            | true ↦
                let (n, bytes, after) = read ring (ulong len) in
                elim (ltb 0 n) [
                  | true ↦
                      let (ring', queue', done) = drain_reads fuel after rest in
                      (ring', queue', complete_bytes request success n bytes ∷ done)
                  | false ↦ let (queue', done) = requeue request rest in (after, queue', done)
                ]
          ]
    ]
  ]

  -- GcomDrainRingToReads. No more rounds are made than there are requests.
  pub drain_ring_to_reads : Ring → Queue → Ring × Queue × List (Completion Request)
  unfolding drain_reads requeue
  drain_ring_to_reads ring queue = drain_reads (suc (length (pending queue))) ring queue

  -- The peer's reads are drained if its queue is there.
  pub drain_peer : Ring → Option Queue → Ring × Option Queue × List (Completion Request)
  drain_peer ring none = (ring, none, [])
  drain_peer ring (some queue) =
      let (ring', queue', done) = drain_ring_to_reads ring queue in (ring', some queue', done)

  -- The loop of GcomDrainWritesToRing, with fuel for its rounds.
  pub drain_writes :
      ℕ → Ring → Queue → Option Queue → Ring × Queue × Option Queue × List (Completion Request)
  drain_writes zero ring queue peer = (ring, queue, peer, [])
  drain_writes (suc fuel) ring queue peer = elim (ltb 0 (write_available ring)) [
    | false ↦ (ring, queue, peer, [])
    | true ↦ elim (retrieve_next queue) [
      | none ↦ (ring, queue, peer, [])
      | some (request, rest) ↦
          let (st, bytes) = input_buffer request 1 in
          elim (nt_success st) [
            | false ↦
                let (ring', queue', peer', done) = drain_writes fuel ring rest peer in
                (ring', queue', peer', complete request st ∷ done)
            | true ↦
                let (n, after) = write ring bytes (ulong (length bytes)) in
                elim (ltb 0 n) [
                  | true ↦
                      let (ring₁, peer₁, reads) = drain_peer after peer in
                      let (ring', queue', peer', done) = drain_writes fuel ring₁ rest peer₁ in
                      (ring', queue', peer', complete_count request success n ∷ (reads ++ done))
                  | false ↦ let (queue', done) = requeue request rest in (after, queue', peer, done)
                ]
          ]
    ]
  ]

  -- GcomDrainWritesToRing
  pub drain_writes_to_ring :
      Ring → Queue → Option Queue → Ring × Queue × Option Queue × List (Completion Request)
  unfolding drain_writes drain_peer drain_ring_to_reads requeue
  drain_writes_to_ring ring queue peer = drain_writes (suc (length (pending queue))) ring queue peer

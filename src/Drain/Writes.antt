-- ===== src/Drain/Writes.antt =====
-- GcomDrainWritesToRing: whose bytes it takes, whom it serves, and when it stops.
use mathlib.Core.List.{Perm}
use mathlib.Core.List.Perm
use ghostcom.Base.{ℕ, zero, suc, ◌-◌, ◌^◌, ◌≤◌, ◌<◌, ◌≡◌, refl, ap, ap₂, sym, ◌∙◌, arith, inl, inr}
use ghostcom.Base.{
  List, [], ◌∷◌, ◌++◌, append_assoc, Bool-cases, true, false, none, some, Option, ltb, length,
}
use ghostcom.Base.{take, lt→ltb, ltb→lt, ltb→le}
use ghostcom.Status.{Status, nt_success, success}
use ghostcom.Word.{ulong}
use ghostcom.Ring.{Ring, write, write_available}
use ghostcom.Ring.Fifo
use ghostcom.Ring.Inv.{IsValid, used-lt}
use ghostcom.Ring.Contents.{contents, length-contents, write_available-contents}
use ghostcom.Ring.Writing.{write_refines}
use ghostcom.Wdf.{
  Wdf, Completion, complete, complete_count, requests, received, accepted, queue_cases, held,
}
use ghostcom.Wdf.{requests-append, received-append, accepted-append}
use ghostcom.Drain.{drain_peer, drain_writes, drain_writes_to_ring}
use ghostcom.Drain.Reads.{Served}
use ghostcom.Drain.Moved.{IsFull, perm_shuffle, Moved, MovedOut, drain_peer-Served, Moved-now}

module _ (wdf : Wdf) where
  open wdf use {Request, Queue, pending, input_buffer}

  Moved-bad :
      {ring ring' : Ring} {writes rest reads writes' reads' : List Request}
      {done : List (Completion Request)} (request : Request) (st : Status)
      → writes ≡ request ∷ rest
      → Moved wdf ring rest reads ring' writes' reads' done
      → Moved wdf ring writes reads ring' writes' reads' (complete request st ∷ done)
  Moved-bad request st here m = record {
    valid = m.valid;
    size = m.size;
    once = rw here (Perm.cons request m.once);
    bytes = m.bytes;
    settled = m.settled;
    readers = m.readers;
    quiet = m.quiet;
  }

  -- The requests of a write, of the reads served, and of the rest.
  written_once :
      (rest reads reads₁ left : List Request) (served done : List (Completion Request))
      (request : Request)
      → requests served ++ reads₁ ≡ reads
      → Perm (requests done ++ left) (rest ++ reads₁)
      → Perm (request ∷ (requests (served ++ done) ++ left)) (request ∷ (rest ++ reads))
  written_once rest reads reads₁ left served done request order once =
      rw (requests-append served done, append_assoc, ← order)
        (Perm.cons request (
          Perm.trans (Perm.append_left (requests served) once)
            (perm_shuffle (requests served) rest reads₁)))

  -- Their bytes: `old` was held, `put` is written, then `served` and `done` are handed out.
  written_bytes :
      (old put held₁ held' : List ℕ) (served done : List (Completion Request))
      → received served ++ held₁ ≡ old ++ put
      → received done ++ held' ≡ held₁ ++ accepted wdf done
      → accepted wdf served ≡ []
      → received (served ++ done) ++ held' ≡ old ++ (put ++ accepted wdf (served ++ done))
  written_bytes old put held₁ held' served done first next no_writes =
      ap (λ t. t ++ held') (received-append served done)
      ∙ append_assoc (received served) (received done) held'
      ∙ ap (λ t. received served ++ t) next
      ∙ sym (append_assoc (received served) held₁ (accepted wdf done))
      ∙ ap (λ t. t ++ accepted wdf done) first
      ∙ append_assoc old put (accepted wdf done)
      ∙ ap (λ t. old ++ (put ++ t)) none_more
    where
      none_more : accepted wdf done ≡ accepted wdf (served ++ done)
      none_more = sym (accepted-append wdf served done ∙ ap (λ t. t ++ accepted wdf done) no_writes)

  -- Where nobody waits, nobody is served.
  nobody_served :
      (served : List (Completion Request)) (left : List Request)
      → requests served ++ left ≡ []
      → (served ≡ []) × (left ≡ [])
  nobody_served [] left e = (refl, e)
  nobody_served (c ∷ served) left e = cc

  -- A write that puts bytes in, a drain of the peer's reads, and the rest of the work.
  Moved-write :
      {ring after ring₁ ring' : Ring} {writes rest reads reads₁ writes' reads' : List Request}
      {served done : List (Completion Request)} (request : Request) (n : ℕ)
      → writes ≡ request ∷ rest
      → after.size ≡ ring.size
      → contents after ≡ contents ring ++ take n (input_buffer request 1).1
      → Served wdf after reads ring₁ reads₁ served
      → Moved wdf ring₁ rest reads₁ ring' writes' reads' done
      → Moved wdf ring writes reads ring' writes' reads'
          (complete_count request success n ∷ (served ++ done))
  Moved-write {ring} {ring₁} {ring'} {rest} {reads} {reads₁} {writes'} {reads'} {served} {done}
        request n here same put s m =
      record {
        valid = m.valid;
        size = m.size ∙ s.size ∙ same;
        once =
            rw here (
              written_once rest reads reads₁ (writes' ++ reads') served done request s.order
                m.once);
        bytes =
            written_bytes (contents ring) (take n (input_buffer request 1).1) (contents ring₁)
              (contents ring') served done (s.bytes ∙ put) m.bytes s.no_writes;
        settled = m.settled;
        readers = λ _. m.readers s.settled;
        quiet = λ e.
            let nobody = nobody_served served reads₁ (s.order ∙ e) in
            let rest = m.quiet nobody.1 in
            (received-append served done ∙ ap₂ ◌++◌ (ap received nobody.0) rest.0, rest.1);
      }

  no_room_IsFull : {ring : Ring} → IsValid ring → ltb 0 (write_available ring) ≡ false → IsFull ring
  no_room_IsFull {ring} v h = omega (
    arith,
    ltb→le 0 (write_available ring) h,
    write_available-contents v,
    length-contents ring,
    used-lt v,
  )

  -- A write of a request with bytes, to a ring with room, puts at least one byte in.
  some_write :
      {ring : Ring} (v : IsValid ring) (bytes : List ℕ)
      → ltb 0 (write_available ring) ≡ true
      → 1 ≤ length bytes
      → length bytes < 2 ^ 32
      → let (n, after) = write ring bytes (ulong (length bytes)) in
        (ltb 0 n ≡ true) × (contents after ≡ contents ring ++ take n bytes)
  unfolding Fifo.write
  some_write {ring} v bytes room low high = (
    lt→ltb 0 _ (
        rw (ap (λ p. p.0) step)
          (omega (arith, ltb→lt 0 (write_available ring) room, write_available-contents v))),
    ap (λ p. p.1) step ∙ ap (λ n. contents ring ++ take n bytes) (sym (ap (λ p. p.0) step)),
  )
    where
      step :
          (
            (write ring bytes (ulong (length bytes))).0,
            contents (write ring bytes (ulong (length bytes))).1,
          )
          ≡ Fifo.write (ring.size - 1) (contents ring) bytes (ulong (length bytes))
      step = (write_refines v bytes (ulong (length bytes)) (omega arith)).2

  -- The rounds of the loop.
  module _ (fuel : ℕ) (ring : Ring) (queue : Queue) (peer : Option Queue) where
    stop_full :
        ltb 0 (write_available ring) ≡ false
        → drain_writes wdf (suc fuel) ring queue peer ≡ (ring, queue, peer, [])
    unfolding drain_writes
    stop_full h = rw (h, drain_writes) refl

    stop_nobody :
        ltb 0 (write_available ring) ≡ true
        → wdf.retrieve_next queue ≡ none
        → drain_writes wdf (suc fuel) ring queue peer ≡ (ring, queue, peer, [])
    unfolding drain_writes
    stop_nobody h e = rw (h, e, drain_writes) refl

    go_bad :
        {request : Request} {rest : Queue}
        → ltb 0 (write_available ring) ≡ true
        → wdf.retrieve_next queue ≡ some (request, rest)
        → nt_success (input_buffer request 1).0 ≡ false
        → drain_writes wdf (suc fuel) ring queue peer ≡ (
            let (ring', queue', peer', done) = drain_writes wdf fuel ring rest peer in
            (ring', queue', peer', complete request (input_buffer request 1).0 ∷ done))
    unfolding drain_writes
    go_bad h e bad = rw (h, e, bad, drain_writes) refl

    go_written :
        {request : Request} {rest : Queue}
        → ltb 0 (write_available ring) ≡ true
        → wdf.retrieve_next queue ≡ some (request, rest)
        → nt_success (input_buffer request 1).0 ≡ true
        → let bytes = (input_buffer request 1).1 in
          let (n, after) = write ring bytes (ulong (length bytes)) in
          ltb 0 n ≡ true
          → drain_writes wdf (suc fuel) ring queue peer ≡ (
              let (ring₁, peer₁, reads) = drain_peer wdf after peer in
              let (ring', queue', peer', done) = drain_writes wdf fuel ring₁ rest peer₁ in
              (ring', queue', peer', complete_count request success n ∷ (reads ++ done)))
    unfolding drain_writes
    go_written h e ok some_put = rw (h, e, ok, some_put, drain_writes) refl

  drain_writes-Moved :
      (fuel : ℕ) {ring : Ring} (queue : Queue) (peer : Option Queue)
      → IsValid ring
      → length (pending queue) < fuel
      → MovedOut wdf ring queue peer (drain_writes wdf fuel ring queue peer)
  drain_writes-Moved zero queue peer v h = absurd (omega arith)
  drain_writes-Moved (suc fuel) {ring} queue peer v h =
      elim (Bool-cases (ltb 0 (write_available ring))) [
        | inr full ↦
            rw (stop_full fuel ring queue peer full) (Moved-now wdf v (inl (no_room_IsFull v full)))
        | inl room ↦ elim (queue_cases wdf queue) [
          | inl (nobody, e) ↦
              rw (stop_nobody fuel ring queue peer room e) (Moved-now wdf v (inr nobody))
          | inr (request, rest, e, here) ↦
              let left : length (pending rest) < fuel = omega (arith, ap length here) in
              elim (Bool-cases (nt_success (input_buffer request 1).0)) [
                | inl ok ↦
                    let bytes = (input_buffer request 1).1 in
                    let given = wdf.input_length request 1 ok in
                    let put = some_write v bytes room given.0 given.1 in
                    let step = write_refines v bytes (ulong (length bytes)) (omega arith) in
                    let after = (write ring bytes (ulong (length bytes))).1 in
                    let served = drain_peer-Served wdf {ring = after} peer step.0 in
                    rw (go_written fuel ring queue peer room e ok put.0) (
                      Moved-write request _ here step.1 put.1 served (
                        drain_writes-Moved fuel {ring = (drain_peer wdf after peer).0} rest
                          (drain_peer wdf after peer).1 served.valid left))
                | inr bad ↦ rw (go_bad fuel ring queue peer room e bad) (
                    Moved-bad request _ here
                      (drain_writes-Moved fuel {ring = ring} rest peer v left))
              ]
        ]
      ]

  -- On a valid ring GcomDrainWritesToRing completes each pending write, and each read that
  -- the peer has waiting, once or leaves it pending; the bytes handed out and those left are
  -- the bytes held and those accepted, in order; it stops when the ring is full or no write
  -- is left; and the ring stays valid.
  pub drain_writes_to_ring-Moved :
      {ring : Ring} (queue : Queue) (peer : Option Queue)
      → IsValid ring
      → let (ring', queue', peer', done) = drain_writes_to_ring wdf ring queue peer in
        Moved wdf ring (pending queue) (held wdf peer) ring' (pending queue') (held wdf peer') done
  unfolding drain_writes_to_ring
  drain_writes_to_ring-Moved queue peer v =
      drain_writes-Moved (suc (length (pending queue))) queue peer v (omega arith)

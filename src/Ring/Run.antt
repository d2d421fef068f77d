-- ===== src/Ring/Run.antt =====
-- A client's calls in order, on a ring and on the bounded queue.
use ghostcom.Base.{ℕ, ◌-◌, ◌≡◌, refl, ap, ◌∙◌, arith, List, [], ◌∷◌, length}
use ghostcom.Ring.{Ring, write, read, flush}
use ghostcom.Ring.Fifo
use ghostcom.Ring.Inv.{IsValid}
use ghostcom.Ring.Contents.{contents}
use ghostcom.Ring.Writing.{write_refines}
use ghostcom.Ring.Reading.{read_refines, flush_refines}

pub data Call : Type 0 where
  put : List ℕ → Call
  get : ℕ → Call
  clear : Call

pub data Reply : Type 0 where
  wrote : ℕ → Reply
  gave : ℕ → List ℕ → Reply
  cleared : Reply

pub run : Ring → List Call → List Reply × Ring
run ring [] = ([], ring)
run ring (put bytes ∷ calls) =
    let (n, after) = write ring bytes (length bytes) in
    let (replies, end) = run after calls in (wrote n ∷ replies, end)
run ring (get len ∷ calls) =
    let (n, bytes, after) = read ring len in
    let (replies, end) = run after calls in (gave n bytes ∷ replies, end)
run ring (clear ∷ calls) = let (replies, end) = run (flush ring) calls in (cleared ∷ replies, end)

-- The same calls on the queue.
pub fifo_run : ℕ → List ℕ → List Call → List Reply × List ℕ
fifo_run cap queue [] = ([], queue)
fifo_run cap queue (put bytes ∷ calls) =
    let (n, after) = Fifo.write cap queue bytes (length bytes) in
    let (replies, end) = fifo_run cap after calls in (wrote n ∷ replies, end)
fifo_run cap queue (get len ∷ calls) =
    let (n, bytes, after) = Fifo.read queue len in
    let (replies, end) = fifo_run cap after calls in (gave n bytes ∷ replies, end)
fifo_run cap queue (clear ∷ calls) =
    let (replies, end) = fifo_run cap [] calls in (cleared ∷ replies, end)

-- From a valid ring, no sequence of writes, reads and flushes tells the ring from the bounded
-- queue of its bytes, whose capacity is one less than the size, and the ring stays valid.
pub run_refines :
    {ring : Ring} (calls : List Call)
    → IsValid ring
    → let (replies, end) = run ring calls in
      IsValid end × ((replies, contents end) ≡ fifo_run (ring.size - 1) (contents ring) calls)
unfolding run fifo_run
run_refines [] v = (v, refl)
run_refines {ring} (put bytes ∷ calls) v =
    let step = write_refines v bytes (length bytes) (omega arith) in
    let after = (write ring bytes (length bytes)).1 in
    let rest = run_refines {ring = after} calls step.0 in
    let same =
      rest.1
      ∙ ap (λ s. fifo_run (s - 1) (contents after) calls) step.1
      ∙ ap (λ q. fifo_run (ring.size - 1) q calls) (ap (λ p. p.1) step.2) in
    (rest.0, λ i. (wrote (ap (λ p. p.0) step.2 i) ∷ (same i).0, (same i).1))
run_refines {ring} (get len ∷ calls) v =
    let step = read_refines v len in
    let after = (read ring len).2 in
    let rest = run_refines {ring = after} calls step.0 in
    let same =
      rest.1
      ∙ ap (λ s. fifo_run (s - 1) (contents after) calls) step.1
      ∙ ap (λ q. fifo_run (ring.size - 1) q calls) (ap (λ p. p.2) step.2) in
    (rest.0, λ i. (gave (ap (λ p. p.0) step.2 i) (ap (λ p. p.1) step.2 i) ∷ (same i).0, (same i).1))
run_refines {ring} (clear ∷ calls) v =
    let step = flush_refines v in
    let rest = run_refines {ring = flush ring} calls step.0 in
    let same =
      rest.1
      ∙ ap (λ s. fifo_run (s - 1) (contents (flush ring)) calls) step.1
      ∙ ap (λ q. fifo_run (ring.size - 1) q calls) step.2 in
    (rest.0, λ i. (cleared ∷ (same i).0, (same i).1))

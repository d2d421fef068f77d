-- ===== src/Transfer.antt =====
-- What the four data handlers of comport.c and companion.c have in common, and the contract of a
-- direction: a ring, the reads that wait on it and the writes that wait for room in it.
pub mod Flow
pub mod Steps
use ghostcom.Base.{Bool, true, false, Option, none, some, List, [], ◌∷◌}
use ghostcom.Status.{nt_success}
use ghostcom.Ring.{Ring}
use ghostcom.Wdf.{Wdf, Completion, complete}
use ghostcom.Pair.{PortPair}
use ghostcom.Drain.{drain_writes_to_ring}

-- A handler that comes to an end (no NULL handle is used) with a result of which `P` holds.
abbrev pub Ends {ℓ} : {A : Type ℓ} → (A → Type 0) → Option A → Type 0
Ends P none = ⊥
Ends P (some out) = P out

module _ (wdf : Wdf) where
  open wdf use {Request, Queue, forward}

  -- A request is forwarded to a queue of waiting ones, or completed with the error. `none`: the
  -- handle is NULL, on which the framework stops the system.
  unfoldable pub pend : Request → Option Queue → Option (Option Queue × List (Completion Request))
  pend request none = none
  pend request (some queue) =
      let (st, after) = forward request queue in
      some (some after, elim (nt_success st) [ true ↦ [] | false ↦ complete request st ∷ [] ])

  -- The pair with the queue of waiting requests put back.
  abbrev pub put_back :
      (Option Queue → PortPair Queue)
      → Option (Option Queue × List (Completion Request))
      → Option (PortPair Queue × List (Completion Request))
  put_back update none = none
  put_back update (some (queue, done)) = some (update queue, done)

  -- The waiting writes are drained if their queue is there.
  unfoldable pub unblock :
      Ring
      → Option Queue
      → Option Queue
      → Ring × Option Queue × Option Queue × List (Completion Request)
  unblock ring none reads = (ring, none, reads, [])
  unblock ring (some writes) reads =
      let (ring', writes', reads', done) = drain_writes_to_ring wdf ring writes reads in
      (ring', some writes', reads', done)

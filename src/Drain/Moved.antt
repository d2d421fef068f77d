-- ===== src/Drain/Moved.antt =====
-- What GcomDrainWritesToRing is to do, and its peer's share of it.
use mathlib.Core.List.{Perm, perm_append_comm}
use mathlib.Core.List.Perm
use ghostcom.Base.{◌-◌, ◌≡◌, refl, sym, ◌⊎◌, inr}
use ghostcom.Base.{List, [], ◌++◌, append_assoc, append-nil, none, some, Option, length}
use ghostcom.Ring.{Ring}
use ghostcom.Ring.Inv.{IsValid}
use ghostcom.Ring.Contents.{contents}
use ghostcom.Wdf.{Wdf, Completion, requests, received, accepted, held}
use ghostcom.Drain.{drain_peer}
use ghostcom.Drain.Reads.{Served, Served-now, drain_ring_to_reads-Served}

-- No room is left.
abbrev pub IsFull : Ring → Type 0
IsFull ring = length (contents ring) ≡ ring.size - 1

pub perm_shuffle {ℓ} : {A : Type ℓ} (xs ys zs : List A) → Perm (xs ++ (ys ++ zs)) (ys ++ (xs ++ zs))
perm_shuffle xs ys zs =
    rw (← append_assoc xs ys zs, ← append_assoc ys xs zs)
      (Perm.append_right zs (perm_append_comm xs ys))

module _ (wdf : Wdf) where
  open wdf use {Request, Queue, pending, input_buffer}

  -- What a drain of writes has done: every request that was pending, as a write or as the peer's
  -- read, is completed once or still pending; the bytes handed out and those left are those held
  -- and those accepted, in order; no room or no write is left; if no read was waiting on
  -- bytes, none is, and if none was waiting, no bytes are handed out.
  pub record Moved (ring : Ring) (writes reads : List Request) (ring' : Ring)
      (writes' reads' : List Request) (done : List (Completion Request)) : Type 0 where
    pub valid : IsValid ring'
    pub size : ring'.size ≡ ring.size
    pub once : Perm (requests done ++ (writes' ++ reads')) (writes ++ reads)
    pub bytes : received done ++ contents ring' ≡ contents ring ++ accepted wdf done
    pub settled : IsFull ring' ⊎ (writes' ≡ [])
    pub readers : (contents ring ≡ []) ⊎ (reads ≡ []) → (contents ring' ≡ []) ⊎ (reads' ≡ [])
    pub quiet : reads ≡ [] → (received done ≡ []) × (reads' ≡ [])

  abbrev pub MovedOut :
      Ring → Queue → Option Queue → Ring × Queue × Option Queue × List (Completion Request) → Type 0
  MovedOut ring queue peer out =
      Moved ring (pending queue) (held wdf peer) out.0 (pending out.1) (held wdf out.2) out.3

  pub drain_peer-Served :
      {ring : Ring} (peer : Option Queue)
      → IsValid ring
      → let (ring', peer', done) = drain_peer wdf ring peer in
        Served wdf ring (held wdf peer) ring' (held wdf peer') done
  unfolding drain_peer
  drain_peer-Served none v = Served-now wdf v (inr refl)
  drain_peer-Served (some queue) v = drain_ring_to_reads-Served wdf queue v

  pub Moved-now :
      {ring : Ring} {writes reads : List Request}
      → IsValid ring
      → IsFull ring ⊎ (writes ≡ [])
      → Moved ring writes reads ring writes reads []
  Moved-now {ring} v end = record {
    valid = v;
    size = refl;
    once = Perm.refl _;
    bytes = sym (append-nil (contents ring));
    settled = end;
    readers = λ r. r;
    quiet = λ e. (refl, e);
  }

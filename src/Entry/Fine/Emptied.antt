-- ===== src/Entry/Fine/Emptied.antt =====
-- All pairs in memory with the files that are open on them, over the cleanup.
use ghostcom.Base.{
  ℕ, ◌≡◌, ◌≢◌, if◌then◌else◌, refl, sym, ap, subst, ◌∙◌, Bool, true, false, ◌==◌, ==_iff, ◌||◌,
}
use ghostcom.Base.{both_false, List, [], ◌∷◌, Option, none, some}
use ghostcom.Kernel.{remove}
use ghostcom.Wdf.{Wdf}
use ghostcom.Pair.{PortPair}
use ghostcom.Table.{Driver, Slot, vacant, reserved, pointer, put}
use ghostcom.Table.Sound.{put-other, IsSound, points}
use ghostcom.Table.Well.{IsWell}
use ghostcom.Life.{pair_destroy}
use ghostcom.Destroy.{
  DestroyCalls, port_pair_destroy, collect, count_down, destroy_all, delete_control_device,
  self_managed_io_cleanup,
}
use ghostcom.Destroy.Table.{heap_after}
use ghostcom.Control.Claims.{alone_points}
use ghostcom.Entry.Fine.{Files, IsFine, port_pair_destroy-IsFine}

module _ {Queue : Type 0} where
  -- Whether a pair of the list is at a pointer.
  abbrev among : ℕ → List (ℕ × PortPair Queue) → Bool
  among p [] = false
  among p ((q, pp) ∷ pairs) = q == p || among p pairs

  -- The pairs of the list are in memory and active, each once.
  abbrev IsDue : (ℕ → Option (PortPair Queue)) → List (ℕ × PortPair Queue) → Type 0
  IsDue heap [] = Unit {0}
  IsDue heap ((p, pp) ∷ pairs) =
      (heap p ≡ some pp) × (pp.active ≡ true) × (among p pairs ≡ false) × IsDue heap pairs

  among-collect :
      (heap : ℕ → Option (PortPair Queue)) (p : ℕ) (ports : List Slot)
      → IsSound heap ports
      → points p ports ≡ false
      → among p (collect heap ports).0 ≡ false
  unfolding collect
  among-collect heap p [] s h = refl
  among-collect heap p (vacant ∷ ports) s h = among-collect heap p ports s h
  among-collect heap p (reserved ∷ ports) s h = among-collect heap p ports s h
  among-collect heap p (pointer q ∷ ports) (e, s) h =
      let (other, rest) = both_false _ _ h in
      rw (e.there, e.is_active, collect)
        (ap (λ b. b || among p (collect heap ports).0) other ∙ among-collect heap p ports s rest)

  collect-IsDue :
      (heap : ℕ → Option (PortPair Queue)) (ports : List Slot)
      → IsSound heap ports
      → IsDue heap (collect heap ports).0
  unfolding collect
  collect-IsDue heap [] s = tt
  collect-IsDue heap (vacant ∷ ports) s = collect-IsDue heap ports s
  collect-IsDue heap (reserved ∷ ports) s = collect-IsDue heap ports s
  collect-IsDue heap (pointer p ∷ ports) (e, s) =
      rw (e.there, collect)
        (listed_IsDue e.pair e.pair.active e.there
          (among-collect heap p ports s
            (alone_points 0 heap p e.pair ports e.there e.is_active e.alone))
          e.is_active (collect-IsDue heap ports s))
    where
      listed_IsDue :
          (pp : PortPair Queue) (b : Bool)
          → heap p ≡ some pp
          → among p (collect heap ports).0 ≡ false
          → pp.active ≡ true
          → IsDue heap (collect heap ports).0
          → IsDue heap
              (if◌then◌else◌ {A = List (ℕ × PortPair Queue) × List Slot} b
                ((p, pp) ∷ (collect heap ports).0, vacant ∷ (collect heap ports).1)
                ((collect heap ports).0, pointer p ∷ (collect heap ports).1)).0
      listed_IsDue pp true there apart on due = (there, on, apart, due)
      listed_IsDue pp false there apart on due = due

  -- A write to memory that no pair of the list is at.
  put-IsDue :
      (heap : ℕ → Option (PortPair Queue)) (p : ℕ) (v : Option (PortPair Queue))
      (pairs : List (ℕ × PortPair Queue))
      → among p pairs ≡ false
      → IsDue heap pairs
      → IsDue (put heap p v) pairs
  put-IsDue heap p v [] h due = tt
  put-IsDue heap p v ((q, pp) ∷ pairs) h (there, on, apart, due) =
      let (other, rest) = both_false _ _ h in
      (put-other heap p q v (distinct other) ∙ there, on, apart, put-IsDue heap p v pairs rest due)
    where
      distinct : (q == p) ≡ false → p ≢ q
      distinct other e = cc (other, (==_iff q p).1 (sym e))

module _ (wdf : Wdf) (files : Files) where
  open wdf use {Queue}

  destroy_all-IsFine :
      (calls : ℕ → DestroyCalls) (pairs : List (ℕ × PortPair Queue)) (d : Driver Queue)
      → IsDue d.heap pairs
      → IsFine wdf d.heap files
      → IsFine wdf (destroy_all calls pairs d).heap files
  unfolding destroy_all
  destroy_all-IsFine calls [] d due fine = fine
  destroy_all-IsFine calls ((p, pp) ∷ pairs) d (there, on, apart, due) fine =
      let gone = record pp { active = false } in
      destroy_all-IsFine calls pairs (port_pair_destroy (calls p) p gone d)
        (subst (λ heap. IsDue heap pairs) (sym (heap_after (calls p) p gone d))
          (put-IsDue d.heap p (pair_destroy gone) pairs apart due))
        (port_pair_destroy-IsFine wdf (calls p) p pp d files there on fine)

  heap_same : (d : Driver Queue) → (delete_control_device d).heap ≡ d.heap
  unfolding delete_control_device
  heap_same d = go d.control_device
    where
      go :
          (device : Option ℕ)
          → (elim device as (λ _. Driver Queue) [
            | none ↦ d
            | some device ↦ record d {
              g_dev_ctx = false;
              control_device = none;
              kernel = record (d.kernel) { devices = remove device d.kernel.devices };
            }
          ]).heap
            ≡ d.heap
      go none = refl
      go (some device) = refl

  pub self_managed_io_cleanup-IsFine :
      (calls : ℕ → DestroyCalls) (d : Driver Queue)
      → IsWell d
      → IsFine wdf d.heap files
      → IsFine wdf (self_managed_io_cleanup calls d).heap files
  unfolding self_managed_io_cleanup
  self_managed_io_cleanup-IsFine calls d w fine =
      let (pairs, ports) = collect d.heap d.ports in
      let out = record d { ports = ports; port_count = count_down pairs d.port_count } in
      subst (λ heap. IsFine wdf heap files) (sym (heap_same (destroy_all calls pairs out)))
        (destroy_all-IsFine calls pairs out (collect-IsDue d.heap d.ports w.sound) fine)

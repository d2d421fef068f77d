-- ===== src/Life/World.antt =====
-- The open and close callbacks and the destruction as steps, and what is to hold between them.
use ghostcom.Base.{ℕ, suc, Bool, true, false, ◌+◌, ◌≤◌, ◌≡◌}
use ghostcom.Base.{Option, none, some}
use ghostcom.Wdf.{Wdf}
use ghostcom.Pair.{PortPair}
use ghostcom.Life.{pair_destroy, com_file_create, com_file_close}
use ghostcom.Life.{comp_file_create, comp_file_close}

-- The references that a flag stands for.
abbrev pub one_if : Bool → ℕ
one_if true = 1
one_if false = 0

-- A pair, freed or not, with the COM and companion files that have it, and whether the reference of
-- its creation is still held.
pub data World (Queue : Type 0) : Type 0 where
  world : Option (PortPair Queue) → ℕ → ℕ → Bool → World Queue

module _ (wdf : Wdf) where
  open wdf use {Request, Queue}

  pub data Step : World Queue → World Queue → Type 0 where
    com_open :
        {pp : PortPair Queue} {coms comps : ℕ} {created : Bool}
        → (r : Request)
        → Step (world (some pp) coms comps created) (
            world
              (some (com_file_create wdf pp r).0)
              (coms + one_if (com_file_create wdf pp r).1)
              comps
              created)
    comp_open :
        {pp : PortPair Queue} {coms comps : ℕ} {created : Bool}
        → (r : Request)
        → Step (world (some pp) coms comps created) (
            world
              (some (comp_file_create wdf pp r).0)
              coms
              (comps + one_if (comp_file_create wdf pp r).1)
              created)
    com_close :
        {pp : PortPair Queue} {coms comps : ℕ} {created : Bool}
        → Step
            (world (some pp) (suc coms) comps created)
            (world (com_file_close wdf pp).0 coms comps created)
    comp_close :
        {pp : PortPair Queue} {coms comps : ℕ} {created : Bool}
        → Step
            (world (some pp) coms (suc comps) created)
            (world (comp_file_close wdf pp) coms comps created)
    destroy :
        {pp : PortPair Queue} {coms comps : ℕ}
        → Step (world (some pp) coms comps true) (world (pair_destroy pp) coms comps false)

  -- The steps from a pair that was just created: it is active, not open, and has one reference.
  pub data Reachable : World Queue → Type 0 where
    start :
        (pp : PortPair Queue)
        → pp.com_side_open ≡ 0
        → pp.companion_side_open ≡ 0
        → pp.ref_count ≡ 1
        → Reachable (world (some pp) 0 0 true)
    next : {w w' : World Queue} → Reachable w → Step w w' → Reachable w'

  -- A pair that is there has a reference for each holder; an active one has its flags right.
  pub record IsHeldBy (pp : PortPair Queue) (coms comps : ℕ) (created : Bool) : Type 0 where
    pub coms_once : coms ≤ 1
    pub comps_once : comps ≤ 1
    pub count : pp.ref_count ≡ one_if created + coms + comps
    pub positive : 1 ≤ pp.ref_count
    pub live :
        pp.active ≡ true
        → (created ≡ true) × (pp.com_side_open ≡ coms) × (pp.companion_side_open ≡ comps)

  abbrev pub IsHeld : World Queue → Type 0
  IsHeld (world none coms comps created) = (coms ≡ 0) × (comps ≡ 0) × (created ≡ false)
  IsHeld (world (some pp) coms comps created) = IsHeldBy pp coms comps created

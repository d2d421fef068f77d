-- ===== src/Table.antt =====
-- The port table of driver/src/driver.h (GCOM_DEVICE_CTX), and GcomFindFreePortNumber of portpair.c.
pub mod Slots
pub mod Numbers
pub mod Sound
pub mod Filled
pub mod Well
pub mod Touched
use ghostcom.Base.{
  ℕ, zero, suc, ◌+◌, Bool, true, false, ◌&&◌, ◌||◌, not, ◌==◌, if◌then◌else◌, List, [], ◌∷◌,
}
use ghostcom.Base.{Option, none, some}
use ghostcom.Status.{Status, nt_success, success, object_name_collision, insufficient_resources}
use ghostcom.Kernel.{Kernel}
use ghostcom.Pair.{PortPair}

-- An entry of Ports[]: NULL, GCOM_PORT_RESERVED, or a pointer to a pair.
pub data Slot : Type 0 where
  vacant reserved : Slot
  pointer : ℕ → Slot

-- GCOM_MAX_PORTS
abbrev pub max_ports : ℕ
max_ports = 64

-- GCOM_DEVICE_CTX, with what the driver holds beside it: the pairs by their pointers (`none` where
-- nothing is allocated), the account of the kernel's objects, and `g_DevCtx` of control.c (whether
-- it is set).
pub record Driver (Queue : Type 0) : Type 0 where
  pub ports : List Slot
  pub port_count : ℕ
  pub control_device : Option ℕ
  pub g_dev_ctx : Bool
  pub heap : ℕ → Option (PortPair Queue)
  pub kernel : Kernel

-- A write through a pointer.
abbrev pub put : {A : Type 0} → (ℕ → Option A) → ℕ → Option A → ℕ → Option A
put heap p v q = if p == q then v else heap q

-- The first entry that is NULL.
unfoldable pub free_slot : List Slot → Option ℕ
free_slot [] = none
free_slot (vacant ∷ ports) = some 0
free_slot (reserved ∷ ports) = elim (free_slot ports) [ none ↦ none | some i ↦ some (suc i) ]
free_slot (pointer _ ∷ ports) = elim (free_slot ports) [ none ↦ none | some i ↦ some (suc i) ]

-- The table with an entry replaced.
unfoldable pub set_slot : ℕ → Slot → List Slot → List Slot
set_slot i s [] = []
set_slot zero s (t ∷ ports) = s ∷ ports
set_slot (suc i) s (t ∷ ports) = t ∷ set_slot i s ports

-- Whether an entry is GCOM_PORT_RESERVED.
unfoldable pub is_reserved : ℕ → List Slot → Bool
is_reserved i [] = false
is_reserved zero (vacant ∷ ports) = false
is_reserved zero (reserved ∷ ports) = true
is_reserved zero (pointer _ ∷ ports) = false
is_reserved (suc i) (t ∷ ports) = is_reserved i ports

-- The loop over the candidates, with the number of those that are left.
unfoldable pub scan : (ℕ → Bool) → ℕ → ℕ → ℕ
scan taken zero candidate = 0
scan taken (suc left) candidate =
    let rest = scan taken left (candidate + 1) in if taken candidate then rest else candidate

module _ {Queue : Type 0} where
  -- The test of a pair that the loops over the table make: it is active and has what is sought.
  unfoldable pub is_live : (PortPair Queue → Bool) → Option (PortPair Queue) → Bool
  is_live wanted none = false
  is_live wanted (some pp) = pp.active && wanted pp

  -- Whether an entry points to such a pair.
  unfoldable pub some_live :
      (PortPair Queue → Bool) → (ℕ → Option (PortPair Queue)) → List Slot → Bool
  some_live wanted heap [] = false
  some_live wanted heap (vacant ∷ ports) = some_live wanted heap ports
  some_live wanted heap (reserved ∷ ports) = some_live wanted heap ports
  some_live wanted heap (pointer p ∷ ports) = is_live wanted (heap p) || some_live wanted heap ports

  -- Whether one of our active pairs has the number.
  unfoldable pub in_use : Driver Queue → ℕ → Bool
  in_use d number = some_live (λ pp. pp.port_number == number) d.heap d.ports

  -- The outcome of ZwOpenSymbolicLinkObject on \DosDevices\COM<N> and \DosDevices\GCOM<N>.
  module _ (com_link comp_link : ℕ → Status) where
    -- Whether GcomFindFreePortNumber passes over a candidate.
    unfoldable pub is_taken : Driver Queue → ℕ → Bool
    is_taken d number =
        in_use d number || (nt_success (com_link number) || nt_success (comp_link number))

  -- GcomFindFreePortNumber
  unfoldable pub find_free_port_number : (ℕ → Status) → (ℕ → Status) → Driver Queue → ℕ
  find_free_port_number com_link comp_link d = scan (is_taken com_link comp_link d) 255 1

  -- The choice of a port number in GcomPortPairCreate.
  unfoldable pub choose_number : (ℕ → Status) → (ℕ → Status) → Driver Queue → ℕ → Status × ℕ
  choose_number com_link comp_link d requested =
      if not (requested == 0)
      then if in_use d requested
        then (object_name_collision, 0)
        else if nt_success (com_link requested)
        then (object_name_collision, 0)
        else (success, requested)
      else let number = find_free_port_number com_link comp_link d in
        if number == 0 then (insufficient_resources, 0) else (success, number)

-- ===== src/Table/Well.antt =====
-- What is to hold of the port table between two operations.
use ghostcom.Base.{◌^◌, ◌≤◌, ◌<◌, ◌≡◌, arith, List, [], ◌∷◌, length}
use ghostcom.Table.{Driver, Slot, vacant, reserved, pointer}
use ghostcom.Table.Slots.{occupied}
use ghostcom.Table.Sound.{IsSound}

-- The table has its 64 entries and their count, and its pointers lead to active pairs, no two of
-- which have the same port number.
pub record IsWell {Queue : Type 0} (d : Driver Queue) : Type 0 where
  pub long : length d.ports ≡ 64
  pub counted : d.port_count ≡ occupied d.ports
  pub sound : IsSound d.heap d.ports

occupied_le : (ports : List Slot) → occupied ports ≤ length ports
occupied_le [] = omega arith
occupied_le (vacant ∷ ports) = omega (arith, occupied_le ports)
occupied_le (reserved ∷ ports) = omega (arith, occupied_le ports)
occupied_le (pointer p ∷ ports) = omega (arith, occupied_le ports)

module _ {Queue : Type 0} (d : Driver Queue) where
  pub few : IsWell d → d.port_count ≤ 64
  few w = omega (arith, occupied_le d.ports, w.long, w.counted)

  pub few_lt : IsWell d → d.port_count < 2 ^ 32
  few_lt w = omega (arith, few w)

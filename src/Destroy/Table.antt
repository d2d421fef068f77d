-- ===== src/Destroy/Table.antt =====
-- The port table over GcomPortPairDestroy.
use ghostcom.Base.{ℕ, ◌≡◌, refl, arith, false, ◌==◌, List, [], ◌∷◌}
use ghostcom.Pair.{PortPair}
use ghostcom.Life.{pair_destroy}
use ghostcom.Com.Device.{com_port_destroy}
use ghostcom.Companion.Device.{companion_destroy}
use ghostcom.Table.{Driver, Slot, vacant, reserved, pointer, put}
use ghostcom.Table.Sound.{points, put-same}
use ghostcom.Destroy.{DestroyCalls, take_out, withdraw, dismantle, let_go, port_pair_destroy}

-- There is nothing to take out where no entry is the pointer.
pub take_out_absent :
    (p : ℕ) (ports : List Slot) → points p ports ≡ false → take_out p ports ≡ (false, ports)
unfolding take_out
take_out_absent p [] h = refl
take_out_absent p (vacant ∷ ports) h = rw (take_out_absent p ports h) refl
take_out_absent p (reserved ∷ ports) h = rw (take_out_absent p ports h) refl
take_out_absent p (pointer q ∷ ports) h =
    let other : (q == p) ≡ false = ground arith in
    let rest : points p ports ≡ false = ground arith in
    rw (other, take_out_absent p ports rest) refl

module _ {Queue : Type 0} (calls : DestroyCalls) (p : ℕ) (pp : PortPair Queue)
    (d : Driver Queue) where
  -- What GcomPortPairDestroy, with its calls of GcomComPortDestroy and GcomCompanionDestroy,
  -- does to the pair is what `pair_destroy` does, whatever the kernel's calls return.
  pub port_pair_destroy-pair_destroy : (port_pair_destroy calls p pp d).heap p ≡ pair_destroy pp
  unfolding port_pair_destroy dismantle let_go withdraw pair_destroy com_port_destroy
      companion_destroy
  port_pair_destroy-pair_destroy = put-same d.heap p _

  pub heap_after : (port_pair_destroy calls p pp d).heap ≡ put d.heap p (pair_destroy pp)
  unfolding port_pair_destroy dismantle let_go withdraw pair_destroy com_port_destroy
      companion_destroy
  heap_after = refl

  -- The table where the pair is no longer in it.
  pub ports_after :
      points p d.ports ≡ false
      → ((port_pair_destroy calls p pp d).ports ≡ d.ports)
        × ((port_pair_destroy calls p pp d).port_count ≡ d.port_count)
  unfolding port_pair_destroy let_go withdraw
  ports_after h = rw (take_out_absent p d.ports h) (refl, refl)

-- ===== src/Destroy/Cleanup.antt =====
-- The driver after GcomEvtSelfManagedIoCleanup.
use ghostcom.Base.{
  ℕ, suc, ◌+◌, ◌-◌, ◌^◌, ◌≤◌, ◌<◌, ◌≡◌, ==_iff, refl, sym, ap, ◌∙◌, arith, false, ◌||◌, Option,
  none, some, List, [], ◌∷◌, length,
}
use ghostcom.Kernel.{remove}
use ghostcom.Word.{sub32}
use ghostcom.Pair.{PortPair}
use ghostcom.Table.{Driver, Slot, vacant, reserved, pointer}
use ghostcom.Table.Slots.{occupied}
use ghostcom.Table.Sound.{points, IsSound}
use ghostcom.Table.Well.{IsWell, few}
use ghostcom.Destroy.{
  DestroyCalls, port_pair_destroy, collect, count_down, destroy_all, delete_control_device,
  self_managed_io_cleanup, withdraw, let_go,
}
use ghostcom.Destroy.Table.{ports_after}

count_down_lem :
    {Queue : Type 0} (pairs : List (ℕ × PortPair Queue)) (n : ℕ)
    → n < 2 ^ 32
    → length pairs ≤ n
    → count_down pairs n ≡ n - length pairs
count_down_lem [] n small enough = omega arith
count_down_lem (_ ∷ pairs) n small enough =
    let next : sub32 n 1 ≡ n - 1 = omega arith in
    rw next (omega (arith, count_down_lem pairs (n - 1) (omega arith) (omega arith)))

module _ {Queue : Type 0} where
  -- All pairs of a sound table are collected, and no pointer is left.
  record IsCollected (ports : List Slot) (result : List (ℕ × PortPair Queue) × List Slot)
      : Type 0 where
    long : length result.1 ≡ length ports
    count : occupied ports ≡ length result.0 + occupied result.1
    no_pointer : (p : ℕ) → points p result.1 ≡ false

  collect-IsCollected :
      (heap : ℕ → Option (PortPair Queue)) (ports : List Slot)
      → IsSound heap ports
      → IsCollected ports (collect heap ports)
  unfolding collect
  collect-IsCollected heap [] s = record {
    long = refl;
    count = omega arith;
    no_pointer = λ p. refl;
  }
  collect-IsCollected heap (vacant ∷ ports) s =
      let c : IsCollected ports (collect heap ports) = collect-IsCollected heap ports s in
      record { long = ap suc c.long; count = c.count; no_pointer = c.no_pointer }
  collect-IsCollected heap (reserved ∷ ports) s =
      let c : IsCollected ports (collect heap ports) = collect-IsCollected heap ports s in
      record { long = ap suc c.long; count = omega (arith, c.count); no_pointer = c.no_pointer }
  collect-IsCollected heap (pointer p ∷ ports) (e, s) =
      let c : IsCollected ports (collect heap ports) = collect-IsCollected heap ports s in
      rw (e.there, e.is_active, collect)
        (record { long = ap suc c.long; count = omega (arith, c.count); no_pointer = c.no_pointer })

  -- The destructions touch neither the table nor the control device.
  record IsAside (d d' : Driver Queue) : Type 0 where
    same_ports : d'.ports ≡ d.ports
    same_count : d'.port_count ≡ d.port_count
    same_device : d'.control_device ≡ d.control_device

  destroy_all-IsAside :
      (calls : ℕ → DestroyCalls) (pairs : List (ℕ × PortPair Queue)) (d : Driver Queue)
      → ((p : ℕ) → points p d.ports ≡ false)
      → IsAside d (destroy_all calls pairs d)
  unfolding destroy_all port_pair_destroy let_go withdraw
  destroy_all-IsAside calls [] d away = record {
    same_ports = refl;
    same_count = refl;
    same_device = refl;
  }
  destroy_all-IsAside calls ((p, pp) ∷ pairs) d away =
      let d' : Driver Queue = port_pair_destroy (calls p) p (record pp { active = false }) d in
      let (same_ports, same_count) =
        ports_after (calls p) p (record pp { active = false }) d (away p) in
      let rest : IsAside d' (destroy_all calls pairs d') =
        destroy_all-IsAside calls pairs d' (λ q. ap (points q) same_ports ∙ away q) in
      record {
        same_ports = rest.same_ports ∙ same_ports;
        same_count = rest.same_count ∙ same_count;
        same_device = rest.same_device;
      }

  points_nowhere :
      (heap : ℕ → Option (PortPair Queue)) (ports : List Slot)
      → ((p : ℕ) → points p ports ≡ false)
      → IsSound heap ports
  points_nowhere heap [] h = tt
  points_nowhere heap (vacant ∷ ports) h = points_nowhere heap ports h
  points_nowhere heap (reserved ∷ ports) h = points_nowhere heap ports h
  points_nowhere heap (pointer p ∷ ports) h =
      absurd (cc (h p, ap (λ b. b || points p ports) ((==_iff p p).1 refl)))

  -- No pointer is left in a table that is well.
  abbrev IsEmptied : Driver Queue → Type 0
  IsEmptied d = IsWell d × ((p : ℕ) → points p d.ports ≡ false)

  delete_control_device-IsEmptied :
      (d : Driver Queue)
      → IsEmptied d
      → IsEmptied (delete_control_device d) × ((delete_control_device d).control_device ≡ none)
  unfolding delete_control_device
  delete_control_device-IsEmptied d (w, empty) = go d.control_device refl
    where
      go :
          (device : Option ℕ)
          → d.control_device ≡ device
          → (let d' = (elim device as (λ _. Driver Queue) [
            | none ↦ d
            | some device ↦ record d {
              g_dev_ctx = false;
              control_device = none;
              kernel = record (d.kernel) { devices = remove device d.kernel.devices };
            }
          ]) in
              IsEmptied d' × (d'.control_device ≡ none))
      go none e = ((w, empty), e)
      go (some device) e =
          ((record { long = w.long; counted = w.counted; sound = w.sound }, empty), refl)

  destroy_all-IsEmptied :
      (calls : ℕ → DestroyCalls) (pairs : List (ℕ × PortPair Queue)) (d : Driver Queue)
      → IsEmptied d
      → IsEmptied (destroy_all calls pairs d)
  destroy_all-IsEmptied calls pairs d (w, empty) =
      let a : IsAside d (destroy_all calls pairs d) = destroy_all-IsAside calls pairs d empty in
      let empty' : (p : ℕ) → points p (destroy_all calls pairs d).ports ≡ false =
        λ p. ap (points p) a.same_ports ∙ empty p in
      (
        record {
          long = ap length a.same_ports ∙ w.long;
          counted = a.same_count ∙ (w.counted ∙ ap occupied (sym a.same_ports));
          sound =
              points_nowhere (destroy_all calls pairs d).heap (destroy_all calls pairs d).ports
                empty';
        },
        empty',
      )

  collected-IsEmptied :
      (d : Driver Queue)
      → IsWell d
      → (let (pairs, ports) = collect d.heap d.ports in
          IsEmptied (record d { ports = ports; port_count = count_down pairs d.port_count }))
  collected-IsEmptied d w =
      let c : IsCollected d.ports (collect d.heap d.ports) =
        collect-IsCollected d.heap d.ports w.sound in
      (
        record {
          long = c.long ∙ w.long;
          counted = omega (
            arith,
            count_down_lem (collect d.heap d.ports).0 d.port_count (omega (arith, few d w))
                (omega (arith, c.count, w.counted)),
            c.count,
            w.counted,
          );
          sound = points_nowhere d.heap (collect d.heap d.ports).1 c.no_pointer;
        },
        c.no_pointer,
      )

  -- After GcomEvtSelfManagedIoCleanup of a driver whose table is well, the table is well, no
  -- entry points to a pair, and there is no control device.
  pub self_managed_io_cleanup-IsWell :
      (calls : ℕ → DestroyCalls) (d : Driver Queue)
      → IsWell d
      → (let d' = self_managed_io_cleanup calls d in
          IsWell d' × ((p : ℕ) → points p d'.ports ≡ false) × (d'.control_device ≡ none))
  unfolding self_managed_io_cleanup
  self_managed_io_cleanup-IsWell calls d w =
      let ((well, empty), none_left) =
        delete_control_device-IsEmptied _
          (destroy_all-IsEmptied calls (collect d.heap d.ports).0 _ (collected-IsEmptied d w)) in
      (well, empty, none_left)

-- ===== src/Destroy.antt =====
-- driver/src/portpair.c: GcomPortPairDestroy, with the port table and the kernel's objects; and
-- GcomEvtSelfManagedIoCleanup of driver.c, which destroys all pairs.
pub mod Table
pub mod Balance
pub mod Cleanup
use ghostcom.Base.{
  ℕ, ◌+◌, ◌-◌, Bool, true, false, ◌==◌, if◌then◌else◌, List, [], ◌∷◌, Option, none, some,
}
use ghostcom.Status.{Status, nt_success}
use ghostcom.Word.{sub32}
use ghostcom.Ring.{free}
use ghostcom.Kernel.{Kernel, Making, remove, remove_some, ring_blocks, one_if}
use ghostcom.Pair.{PortPair}
use ghostcom.Life.{release}
use ghostcom.Com.Device.{com_port_destroy}
use ghostcom.Companion.Device.{companion_destroy}
use ghostcom.Table.{Driver, Slot, vacant, reserved, pointer, put}

-- The outcomes of the kernel's calls: of WdfChildListUpdateChildDescriptionAsMissing (`none` where
-- there is no child list), and of ZwOpenKey.
pub record DestroyCalls : Type 0 where
  pub mark_missing : Option Status
  pub open_key : Status

-- Whether an entry points to the pair, and the table without the first one that does.
unfoldable pub take_out : ℕ → List Slot → Bool × List Slot
take_out p [] = (false, [])
take_out p (vacant ∷ ports) = let (found, rest) = take_out p ports in (found, vacant ∷ rest)
take_out p (reserved ∷ ports) = let (found, rest) = take_out p ports in (found, reserved ∷ rest)
take_out p (pointer q ∷ ports) =
    let (found, rest) = take_out p ports in
    if q == p then (true, vacant ∷ ports) else (found, pointer q ∷ rest)

module _ {Queue : Type 0} where
  -- The pair is taken out of the table, and its child is reported as missing.
  unfoldable pub withdraw : DestroyCalls → ℕ → PortPair Queue → Driver Queue → Driver Queue
  withdraw calls p pp d =
      let (found, ports) = take_out p d.ports in
      record d {
        ports = ports;
        port_count = if found then sub32 d.port_count 1 else d.port_count;
        kernel = record (d.kernel) {
          children = elim calls.mark_missing [
            | none ↦ d.kernel.children
            | some st ↦
                if nt_success st then remove pp.port_number d.kernel.children else d.kernel.children
          ];
        };
      }

  -- The pair is marked as inactive, the handles of its queues are cleared, the devices deleted, and the rings and the locks freed.
  unfoldable pub dismantle : DestroyCalls → Making Queue → Making Queue
  dismantle calls s =
      let gone = companion_destroy (
        com_port_destroy calls.open_key (record s {
          pair = record (s.pair) {
            active = false;
            signal_wait_queue = none;
            wait_mask_queue = none;
            com_read_queue = none;
            com_write_queue = none;
            comp_read_queue = none;
            comp_write_queue = none;
          };
        })) in
      record {
        pair = record (gone.pair) {
          com_to_companion = free gone.pair.com_to_companion;
          companion_to_com = free gone.pair.companion_to_com;
          data_lock = false;
          signal_lock = false;
        };
        kernel = record (gone.kernel) {
          blocks =
              gone.kernel.blocks
              - ring_blocks gone.pair.com_to_companion
              - ring_blocks gone.pair.companion_to_com;
          locks = gone.kernel.locks - one_if gone.pair.data_lock - one_if gone.pair.signal_lock;
        };
      }

  -- The creation's reference is dropped, and the structure is freed with the last one.
  unfoldable pub let_go : ℕ → Making Queue → Driver Queue → Driver Queue
  let_go p s d =
      let rest = release s.pair in
      record d {
        heap = put d.heap p rest;
        kernel = elim rest [
          | none ↦ record (s.kernel) { blocks = s.kernel.blocks - 1 }
          | some _ ↦ s.kernel
        ];
      }

  -- GcomPortPairDestroy of the pair `pp` at the pointer `p`
  unfoldable pub port_pair_destroy : DestroyCalls → ℕ → PortPair Queue → Driver Queue → Driver Queue
  port_pair_destroy calls p pp d =
      let out = withdraw calls p pp d in
      let_go p (dismantle calls (record { pair = pp; kernel = out.kernel })) out

  -- The active pairs that the cleanup takes out of the table, with how many, and the table that is left.
  unfoldable pub collect :
      (ℕ → Option (PortPair Queue)) → List Slot → List (ℕ × PortPair Queue) × List Slot
  collect heap [] = ([], [])
  collect heap (vacant ∷ ports) = let (pairs, rest) = collect heap ports in (pairs, vacant ∷ rest)
  collect heap (reserved ∷ ports) =
      let (pairs, rest) = collect heap ports in (pairs, reserved ∷ rest)
  collect heap (pointer p ∷ ports) =
      let (pairs, rest) = collect heap ports in
      elim (heap p) [
        | none ↦ (pairs, pointer p ∷ rest)
        | some pp ↦
            if pp.active then ((p, pp) ∷ pairs, vacant ∷ rest) else (pairs, pointer p ∷ rest)
      ]

  abbrev pub count_down : List (ℕ × PortPair Queue) → ℕ → ℕ
  count_down [] n = n
  count_down (_ ∷ pairs) n = count_down pairs (sub32 n 1)

  -- The loop over `toDestroy`.
  unfoldable pub destroy_all :
      (ℕ → DestroyCalls) → List (ℕ × PortPair Queue) → Driver Queue → Driver Queue
  destroy_all calls [] d = d
  destroy_all calls ((p, pp) ∷ pairs) d =
      destroy_all calls pairs (port_pair_destroy (calls p) p (record pp { active = false }) d)

  -- The control device is deleted, if there is one.
  unfoldable pub delete_control_device : Driver Queue → Driver Queue
  delete_control_device d = elim d.control_device [
    | none ↦ d
    | some device ↦ record d {
      g_dev_ctx = false;
      control_device = none;
      kernel = record (d.kernel) { devices = remove device d.kernel.devices };
    }
  ]

  -- GcomEvtSelfManagedIoCleanup
  unfoldable pub self_managed_io_cleanup : (ℕ → DestroyCalls) → Driver Queue → Driver Queue
  self_managed_io_cleanup calls d =
      let (pairs, ports) = collect d.heap d.ports in
      delete_control_device (
        destroy_all calls pairs
          (record d { ports = ports; port_count = count_down pairs d.port_count }))

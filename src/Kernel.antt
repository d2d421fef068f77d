-- ===== src/Kernel.antt =====
-- What the driver holds of the kernel: an account of the objects that it creates and deletes.
use ghostcom.Base.{ℕ, Bool, true, false, ◌==◌, if◌then◌else◌, List, [], ◌∷◌, Option, none, some}
use ghostcom.Status.{Status}
use ghostcom.Ring.{Ring}
use ghostcom.Pair.{PortPair}

-- The control devices, the pool blocks, the lock objects, the port numbers under SERIALCOMM, and
-- those of the children that are reported as present.
pub record Kernel : Type 0 where
  pub devices : List ℕ
  pub blocks : ℕ
  pub locks : ℕ
  pub serial_comm : List ℕ
  pub children : List ℕ

-- A number is taken out where it stands first.
abbrev pub remove : ℕ → List ℕ → List ℕ
remove n [] = []
remove n (m ∷ rest) = if m == n then rest else m ∷ remove n rest

abbrev pub remove_some : Option ℕ → List ℕ → List ℕ
remove_some none l = l
remove_some (some n) l = remove n l

abbrev pub one_if : Bool → ℕ
one_if true = 1
one_if false = 0

-- The block behind a ring's buffer, if it is not NULL.
abbrev pub ring_blocks : Ring → ℕ
ring_blocks ring = elim ring.buffer [ [] ↦ 0 | _ ∷ _ ↦ 1 ]

-- A port pair under construction or destruction, with the account.
pub record Making (Queue : Type 0) : Type 0 where
  pub pair : PortPair Queue
  pub kernel : Kernel

-- The outcomes of the kernel's calls while a device of a pair is created: of
-- WdfControlDeviceInitAllocate, WdfDeviceInitAssignName, WdfDeviceCreate (with the new device),
-- WdfIoQueueCreate (for the default queue and the three manual ones), ExAllocatePool2,
-- WdfDeviceCreateSymbolicLink, and for the COM port ZwCreateKey, ZwSetValueKey and the child list
-- (`none` where there is no list).
pub record DeviceCalls (Queue : Type 0) : Type 0 where
  pub init_given : Bool
  pub assign_name : Status
  pub device : ℕ
  pub device_create : Status
  pub default_queue : Status
  pub first_queue : Status × Queue
  pub second_queue : Status × Queue
  pub third_queue : Status × Queue
  pub link_given : Bool
  pub create_link : Status
  pub create_key : Status
  pub set_value : Status
  pub add_child : Option Status

-- ===== src/Tests/Tables.antt =====
-- The port table (driver/src/portpair.c) at work: a pair is created and destroyed.
use ghostcom.Base.{
  ◌∷◌, ℕ, ◌≡◌, refl, sym, ap, ◌∙◌, arith, true, false, some_injective, none, some, List, [], length,
  replicate, length-replicate, ltb, if◌then◌else◌,
}
use ghostcom.Status.{Status, success, failure, nt_success}
use ghostcom.Kernel.{Kernel, Making, DeviceCalls}
use ghostcom.Pair.{PortPair}
use ghostcom.Table.{
  Driver, vacant, choose_number, find_free_port_number, is_taken, in_use, some_live, free_slot,
  set_slot, is_reserved,
}
use ghostcom.Table.Numbers.{IsLeastFree, find_free_port_number-IsLeastFree}
use ghostcom.Attempt.{go_on, call_else}
use ghostcom.Ring.{init}
use ghostcom.Com.Device.{com_port_create, announce}
use ghostcom.Companion.Device.{companion_create}
use ghostcom.Create.{
  PairCalls, free_parts, port_pair_create, fill_slot, start_pair, publish, initialise,
  first_ring_init, second_ring_init, make_devices, companion_or_back, reserve, fail_alloc,
  give_back,
}
use ghostcom.Create.Left.{com_port_create-strands}
use ghostcom.Create.Rings.{ready}
use ghostcom.Create.Pairs.{complete_pair}
use ghostcom.Create.Outcome.{IsRestored}
use ghostcom.Create.Progress.{AllWell, IsGranted, port_pair_create-Works}
use ghostcom.Create.Promise.{port_pair_create-IsRestored}
use ghostcom.Create.Added.{IsAdded, port_pair_create-IsAdded}
use ghostcom.Destroy.{DestroyCalls, port_pair_destroy}
use ghostcom.Destroy.Balance.{port_pair_destroy-port_pair_create}
use ghostcom.Tests.Model.{list_wdf, TestRequest, pair}

-- A block of zeros.
unfoldable pub zeros : ℕ → List ℕ
zeros n = replicate n 0

pub length-zeros : (n : ℕ) → length (zeros n) ≡ n
unfolding zeros
length-zeros n = length-replicate n 0

-- The calls of a kernel where all goes well; the devices have the numbers 30 and 31.
abbrev pub device_calls : ℕ → DeviceCalls (List TestRequest)
device_calls device = record {
  init_given = true;
  assign_name = success;
  device = device;
  device_create = success;
  default_queue = success;
  first_queue = (success, []);
  second_queue = (success, []);
  third_queue = (success, []);
  link_given = true;
  create_link = success;
  create_key = success;
  set_value = success;
  add_child = some success;
}

-- The symbolic links of COM1 and COM2 are there.
abbrev pub two_links : ℕ → Status
two_links n = if ltb n 3 then success else failure 52

abbrev pub pair_calls : PairCalls (List TestRequest)
pair_calls = record {
  pair_memory = some 7;
  first_ring = λ n. some (zeros n);
  second_ring = λ n. some (zeros n);
  signal_lock = success;
  data_lock = success;
  com_link = two_links;
  comp_link = two_links;
  com_calls = device_calls 30;
  companion_calls = device_calls 31;
  open_key = success;
}

-- The second lock cannot be made.
abbrev lockless_calls : PairCalls (List TestRequest)
lockless_calls = record pair_calls { data_lock = failure 154 }

abbrev pub destroy_calls : DestroyCalls
destroy_calls = record { mark_missing = some success; open_key = success }

abbrev pub no_objects : Kernel
no_objects = record { devices = []; blocks = 0; locks = 0; serial_comm = []; children = [] }

-- A driver without pairs.
abbrev pub empty_driver : Driver (List TestRequest)
empty_driver = record {
  ports = replicate 64 vacant;
  port_count = 0;
  control_device = some 1;
  g_dev_ctx = true;
  heap = λ p. none;
  kernel = no_objects;
}

all_well : (device : ℕ) → AllWell (device_calls device)
all_well device = record {
  init_well = refl;
  name_well = refl;
  device_well = refl;
  default_well = refl;
  first_well = refl;
  second_well = refl;
  third_well = refl;
  link_well = refl;
  create_well = refl;
}

granted : IsGranted pair_calls
granted = record {
  pair_pointer = 7;
  pair_there = refl;
  first_block = zeros 65536;
  first_there = refl;
  second_block = zeros 65536;
  second_there = refl;
  signal_there = refl;
  data_there = refl;
  com_well = all_well 30;
  companion_well = all_well 31;
}

find_free_port_number-IsLeastFree_example :
    IsLeastFree
      (is_taken two_links two_links empty_driver)
      1
      255
      (find_free_port_number two_links two_links empty_driver)
find_free_port_number-IsLeastFree_example =
    find_free_port_number-IsLeastFree two_links two_links empty_driver

free_slot_empty : free_slot empty_driver.ports ≡ some 0
unfolding free_slot
free_slot_empty = refl

three_free : is_taken two_links two_links empty_driver 3 ≡ false
unfolding is_taken in_use some_live
three_free = refl

port_pair_create-Works_example : (port_pair_create pair_calls 0 empty_driver).0 ≡ success
port_pair_create-Works_example =
    port_pair_create-Works pair_calls empty_driver 0 3 granted free_slot_empty (omega arith)
      (omega arith) three_free

created : (port_pair_create pair_calls 0 empty_driver).0 ≡ success
created =
    port_pair_create-Works pair_calls empty_driver 0 3 granted free_slot_empty (omega arith)
      (omega arith) three_free

long_block : (block : List ℕ) → some (zeros 65536) ≡ some block → length block ≡ 65536
long_block block e = ap length (sym (some_injective e)) ∙ length-zeros 65536

port_pair_create-IsAdded_example :
    (number p : ℕ) × (choose_number two_links two_links empty_driver 0 ≡ (success, number))
    × ((port_pair_create pair_calls 0 empty_driver).1 ≡ some p)
    × IsAdded list_wdf empty_driver (port_pair_create pair_calls 0 empty_driver).2 number p
port_pair_create-IsAdded_example =
    port_pair_create-IsAdded list_wdf pair_calls 0 empty_driver (omega arith) (λ p e. refl) refl
      refl long_block long_block (ap nt_success created)

lock_failed : nt_success (port_pair_create lockless_calls 5 empty_driver).0 ≡ false
unfolding port_pair_create fill_slot start_pair publish initialise first_ring_init second_ring_init
    make_devices companion_or_back com_port_create companion_create announce reserve fail_alloc
    give_back choose_number in_use some_live free_slot set_slot is_reserved go_on call_else init
lock_failed = refl

port_pair_create-IsRestored_example :
    ((port_pair_create lockless_calls 5 empty_driver).1 ≡ none)
    × IsRestored empty_driver (port_pair_create lockless_calls 5 empty_driver).2
port_pair_create-IsRestored_example =
    port_pair_create-IsRestored lockless_calls 5 empty_driver (omega arith) (λ p e. refl)
      lock_failed

-- The pair COM5, and the driver with it.
abbrev made_pair : PortPair (List TestRequest)
made_pair =
    (complete_pair pair_calls 5 (ready pair_calls 5 no_objects (zeros 65536) (zeros 65536))).pair

pointer_seven : (port_pair_create pair_calls 5 empty_driver).1 ≡ some 7
unfolding port_pair_create fill_slot start_pair publish initialise first_ring_init second_ring_init
    make_devices companion_or_back com_port_create companion_create announce reserve fail_alloc
    give_back choose_number in_use some_live free_slot set_slot is_reserved go_on call_else init
pointer_seven = refl

pair_five : (port_pair_create pair_calls 5 empty_driver).2.heap 7 ≡ some made_pair
unfolding port_pair_create fill_slot start_pair publish initialise first_ring_init second_ring_init
    make_devices companion_or_back com_port_create companion_create announce reserve fail_alloc
    give_back choose_number in_use some_live free_slot set_slot is_reserved go_on call_else init
pair_five = refl

port_pair_destroy-port_pair_create_example :
    (let d =
        port_pair_destroy destroy_calls 7 made_pair
          (port_pair_create pair_calls 5 empty_driver).2 in
      IsRestored empty_driver d × (d.kernel.devices ≡ []))
port_pair_destroy-port_pair_create_example =
    port_pair_destroy-port_pair_create pair_calls destroy_calls empty_driver (omega arith) tt 5
      (λ p e. refl) 7 made_pair pointer_seven pair_five

-- The default queue of the COM port cannot be made.
abbrev queueless_calls : DeviceCalls (List TestRequest)
queueless_calls = record (device_calls 30) { default_queue = failure 154 }

abbrev started_pair : Making (List TestRequest)
started_pair = record { pair = pair; kernel = no_objects }

queue_failed : nt_success (com_port_create queueless_calls 5 started_pair).0 ≡ false
unfolding com_port_create go_on call_else
queue_failed = refl

com_port_create-strands_example :
    (free_parts (com_port_create queueless_calls 5 started_pair).1).devices ≡ 30 ∷ []
com_port_create-strands_example =
    com_port_create-strands queueless_calls 5 started_pair refl refl refl queue_failed

-- ===== src/Tests/Lives.antt =====
-- Opens, closes and a destruction (driver/src/portpair.c) at work.
use ghostcom.Base.{◌≡◌, refl, true, false, none, List}
use ghostcom.Pair.{PortPair}
use ghostcom.Life.{com_file_create, pair_destroy}
use ghostcom.Life.World.{world, com_open, destroy, start, next, IsHeld}
use ghostcom.Life.Handles.{Reachable-IsHeld}
use ghostcom.Status.{failure, nt_success}
use ghostcom.Attempt.{go_on, call_else}
use ghostcom.Kernel.{Making}
use ghostcom.Com.Device.{com_port_create, announce}
use ghostcom.Companion.Device.{companion_create}
use ghostcom.Create.{PairCalls, companion_or_back, fail_alloc, give_back}
use ghostcom.Create.Opened.{made, opened, com_file_create-fail_alloc}
use ghostcom.Tests.Tables.{empty_driver, pair_calls, device_calls, no_objects}
use ghostcom.Tests.Model.{list_wdf, request, pair, TestRequest}

-- The COM side opens the pair, and then the pair is destroyed.
abbrev opened_pair : PortPair (List TestRequest)
opened_pair = (com_file_create list_wdf pair (request 3)).0

Reachable-IsHeld_example : IsHeld list_wdf (world (pair_destroy opened_pair) 1 0 false)
unfolding com_file_create
Reachable-IsHeld_example =
    Reachable-IsHeld list_wdf
      (next (next (start pair refl refl refl) (com_open (request 3))) destroy)

-- The COM port of a pair is made, a file is opened on it, and the companion cannot be made.
abbrev starting_pair : Making (List TestRequest)
starting_pair = record { pair = record pair { com_sym_link = false }; kernel = no_objects }

abbrev half_calls : PairCalls (List TestRequest)
half_calls = record pair_calls {
  companion_calls = record (device_calls 31) { default_queue = failure 154 };
}

com_port_made : nt_success (com_port_create (device_calls 30) 5 starting_pair).0 ≡ true
unfolding com_port_create announce go_on call_else
com_port_made = refl

companion_failed :
    nt_success
      (companion_or_back half_calls (opened list_wdf half_calls 5 starting_pair (request 3))).0
    ≡ false
unfolding companion_or_back companion_create com_port_create announce go_on call_else
companion_failed = refl

com_file_create-fail_alloc_example :
    ((com_file_create list_wdf
        (made list_wdf half_calls 5 starting_pair (request 3)).pair
        (request 3)).1
      ≡ true)
    × ((fail_alloc 0 7
            (companion_or_back half_calls
              (opened list_wdf half_calls 5 starting_pair (request 3))).1
            (give_back 0 empty_driver)).heap
          7
        ≡ none)
com_file_create-fail_alloc_example =
    com_file_create-fail_alloc list_wdf half_calls 5 starting_pair (request 3) 0 7 empty_driver refl
      refl refl com_port_made companion_failed

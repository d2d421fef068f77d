-- ===== src/Tests/Services.antt =====
-- The driver at work from the addition of its device on (driver/src/driver.c, control.c and portpair.c).
use ghostcom.Base.{
  ℕ, ◌≡◌, refl, ap, sym, ◌∙◌, length, some_injective, false, some, List, [], ◌∷◌, ◌||◌,
}
use ghostcom.Status.{success}
use ghostcom.Attempt.{go_on, call_else}
use ghostcom.Ring.{init}
use ghostcom.Pair.{PortPair}
use ghostcom.Table.{Driver, choose_number, in_use, some_live, free_slot, set_slot, is_reserved}
use ghostcom.Life.{com_file_create}
use ghostcom.Com.Device.{com_port_create, announce}
use ghostcom.Companion.Device.{companion_create}
use ghostcom.Create.{
  port_pair_create, fill_slot, start_pair, publish, initialise, first_ring_init, second_ring_init,
  make_devices, companion_or_back, reserve, fail_alloc, give_back,
}
use ghostcom.Create.Rings.{ready}
use ghostcom.Create.Pairs.{complete_pair}
use ghostcom.Control.{
  control_io_device_control, handle_create_port, create_port, control_device_create,
}
use ghostcom.Transfer.{Ends}
use ghostcom.Session.{comp_write, serve}
use ghostcom.Entry.{device_add}
use ghostcom.Entry.Fine.{Files, mark}
use ghostcom.Entry.Service.{
  Serves, IsServed, IsSupplied, Serves-IsServed, written, added, requested, com_opened,
}
use ghostcom.Entry.Served.{IsAnswered, Serves-IsAnswered}
use ghostcom.Tests.Model.{list_wdf, TestRequest, request}
use ghostcom.Tests.Tables.{
  zeros, length-zeros, empty_driver, pair_calls, destroy_calls, device_calls, no_objects,
}

-- The driver after the addition of its device.
abbrev first_driver : Driver (List TestRequest)
first_driver = record empty_driver { kernel = record no_objects { devices = 1 ∷ [] } }

start_well :
    device_add success success (device_calls 1) false no_objects ≡ (success, some first_driver)
unfolding device_add control_device_create
start_well = refl

abbrev no_files : Files
no_files = record { com_open = λ p. false; comp_open = λ p. false }

supplied : IsSupplied first_driver pair_calls
supplied = record { fresh = λ p e. refl; first_long = long_block; second_long = long_block }
  where
    long_block : (block : List ℕ) → some (zeros 65536) ≡ some block → length block ≡ 65536
    long_block block e = ap length (sym (some_injective e)) ∙ length-zeros 65536

-- A request for the pair COM5.
abbrev for_five : TestRequest
for_five = record { number = 1; space = 36; bytes = 5 ∷ 0 ∷ 0 ∷ 0 ∷ [] }

unfoldable with_five : Driver (List TestRequest)
with_five =
    (control_io_device_control list_wdf pair_calls destroy_calls first_driver for_five
      create_port).0

with_five-Serves : Serves list_wdf [] with_five no_files
unfolding with_five
with_five-Serves =
    requested pair_calls destroy_calls for_five create_port supplied
      (added success success (device_calls 1) false no_objects start_well)

abbrev five : PortPair (List TestRequest)
five =
    (complete_pair pair_calls 5
      (ready pair_calls 5 first_driver.kernel (zeros 65536) (zeros 65536))).pair

five_there : with_five.heap 7 ≡ some five
unfolding with_five control_io_device_control handle_create_port port_pair_create fill_slot
    start_pair publish initialise first_ring_init second_ring_init make_devices companion_or_back
    com_port_create companion_create announce reserve fail_alloc give_back choose_number in_use
    some_live free_slot set_slot is_reserved go_on call_else init
five_there = refl

-- The COM side opens the new pair.
Serves-IsServed_example :
    IsServed list_wdf []
      (written with_five 7 (some (com_file_create list_wdf five (request 2)).0))
      (record no_files {
        com_open =
            mark no_files.com_open 7 ((com_file_create list_wdf five (request 2)).1 || false);
      })
Serves-IsServed_example =
    Serves-IsServed list_wdf [] (com_opened 7 five (request 2) five_there with_five-Serves)

-- The companion writes three bytes to it.
Serves-IsAnswered_example :
    Ends
      (IsAnswered list_wdf [] five (comp_write (request 3) 3))
      (serve list_wdf [] five (comp_write (request 3) 3))
Serves-IsAnswered_example =
    Serves-IsAnswered list_wdf [] 7 five (comp_write (request 3) 3) with_five-Serves five_there refl

-- ===== src/Tests/Entries.antt =====
-- The control device (driver/src/control.c) and the children (driver.c) at work.
use ghostcom.Base.{
  arith, ℕ, ◌≤◌, ◌≡◌, refl, inl, true, false, none, some, List, [], ◌∷◌, length, take,
}
use ghostcom.Status.{success}
use ghostcom.Wdf.{complete_bytes, output_bytes}
use ghostcom.Table.{Driver, pointer, some_live}
use ghostcom.Table.Sound.{numbered, points}
use ghostcom.Table.Well.{IsWell}
use ghostcom.Destroy.{self_managed_io_cleanup}
use ghostcom.Destroy.Cleanup.{self_managed_io_cleanup-IsWell}
use ghostcom.Control.{handle_list_ports, handle_destroy_port}
use ghostcom.Control.Listing.{
  handle_list_ports-take, handle_list_ports-fits, entry_words, words_bytes,
}
use ghostcom.Control.Answers.{Destroys, handle_destroy_port-Destroys}
use ghostcom.Entry.{Pdo, KeyCalls, query_id}
use ghostcom.Entry.PortName.{IsOnce, preprocess_all, preprocess_all-IsOnce}
use ghostcom.Entry.Watch.{Answer, WatchedIrp, query_relations, bus_relations, Watch, watch_all}
use ghostcom.Entry.Watch.Seen.{watch_all-dispatched}
use ghostcom.Tests.Model.{list_wdf, TestRequest, pair}
use ghostcom.Tests.Tables.{empty_driver, destroy_calls}

-- A driver with one pair.
abbrev one_driver : Driver (List TestRequest)
one_driver = record empty_driver {
  ports = pointer 9 ∷ take 63 empty_driver.ports;
  port_count = 1;
  heap = λ p. some pair;
}

nobody : some_live (numbered pair.port_number) (λ p. some pair) (take 63 empty_driver.ports) ≡ false
unfolding some_live
nobody = refl

one_IsWell : IsWell one_driver
one_IsWell = record {
  long = refl;
  counted = refl;
  sound = (record { pair = pair; there = refl; is_active = refl; alone = nobody }, tt);
}

-- A request with a number and room for two entries.
abbrev four_bytes : TestRequest
four_bytes = record { number = 1; space = 36; bytes = 0 ∷ 0 ∷ 0 ∷ 0 ∷ [] }

handle_list_ports-take_example :
    handle_list_ports list_wdf one_driver four_bytes
    ≡ complete_bytes four_bytes success 20 (words_bytes (1 ∷ entry_words (pair ∷ [])))
handle_list_ports-take_example = handle_list_ports-take list_wdf one_driver four_bytes refl

handle_list_ports-fits_example :
    ((handle_list_ports list_wdf one_driver four_bytes).info ≤ 36)
    × (length (output_bytes (handle_list_ports list_wdf one_driver four_bytes).output)
        ≡ (handle_list_ports list_wdf one_driver four_bytes).info)
handle_list_ports-fits_example = handle_list_ports-fits list_wdf one_driver four_bytes refl

handle_destroy_port-Destroys_example :
    Destroys list_wdf destroy_calls one_driver four_bytes 0
      (handle_destroy_port list_wdf destroy_calls one_driver four_bytes)
handle_destroy_port-Destroys_example =
    handle_destroy_port-Destroys list_wdf destroy_calls one_driver four_bytes one_IsWell refl

self_managed_io_cleanup-IsWell_example :
    (let d = self_managed_io_cleanup (λ p. destroy_calls) one_driver in
      IsWell d × ((p : ℕ) → points p d.ports ≡ false) × (d.control_device ≡ none))
self_managed_io_cleanup-IsWell_example =
    self_managed_io_cleanup-IsWell (λ p. destroy_calls) one_driver one_IsWell

abbrev new_pdo : Pdo
new_pdo = record { port_number = 5; port_name_written = false; port_name = none; writes = 0 }

abbrev key_calls : KeyCalls
key_calls = record { open_key = success; has_handle = true; format = success; set_value = success }

preprocess_all-IsOnce_example :
    IsOnce 5 (preprocess_all ((key_calls, query_id) ∷ (key_calls, query_id) ∷ []) new_pdo)
preprocess_all-IsOnce_example =
    preprocess_all-IsOnce ((key_calls, query_id) ∷ (key_calls, query_id) ∷ []) 5 new_pdo
      (record { numbered = refl; told = inl (refl, refl) })

-- The framework finds one child, and then none.
abbrev two_queries : List (WatchedIrp × Answer)
two_queries =
    (
      query_relations bus_relations,
      record { relations = some (9 ∷ []); io_status = success; dispatched = success },
    )
    ∷ (
      query_relations bus_relations,
      record { relations = none; io_status = success; dispatched = success },
    )
    ∷ []

abbrev at_start : Watch
at_start = record { seen = 0; diag = [] }

watch_all-dispatched_example :
    ((watch_all (λ name. (success, success)) (λ st. 0) two_queries at_start).0
      ≡ success ∷ success ∷ [])
    × ((watch_all (λ name. (success, success)) (λ st. 0) two_queries at_start).1.seen ≡ 2)
watch_all-dispatched_example =
    watch_all-dispatched (λ name. (success, success)) (λ st. 0) two_queries at_start (omega arith)

-- ===== src/Tests/Directions.antt =====
-- The drains and the four data handlers (driver/src/portpair.c, comport.c and companion.c) at work.
use ghostcom.Base.{◌≡◌, refl, arith, inr, [], ◌∷◌, none}
use ghostcom.Wdf.{held}
use ghostcom.Drain.{drain_ring_to_reads, drain_writes_to_ring, drain_reads, drain_writes}
use ghostcom.Drain.Rounds.{drain_rounds}
use ghostcom.Drain.Reads.{Served, drain_ring_to_reads-Served}
use ghostcom.Drain.Moved.{Moved}
use ghostcom.Drain.Writes.{drain_writes_to_ring-Moved}
use ghostcom.Transfer.{Ends}
use ghostcom.Transfer.Flow.{IsSettled}
use ghostcom.Com.{com_evt_read, com_evt_write}
use ghostcom.Com.Reading.{ComReadFlow, com_evt_read-Flow}
use ghostcom.Com.Writing.{ComWriteFlow, com_evt_write-Flow}
use ghostcom.Companion.{comp_evt_read, comp_evt_write}
use ghostcom.Companion.Reading.{CompReadFlow, comp_evt_read-Flow}
use ghostcom.Companion.Writing.{CompWriteFlow, comp_evt_write-Flow}
use ghostcom.Tests.Model.{list_wdf, request, pair, two_ring, full_ring}
use ghostcom.Tests.Model.{two_ring-IsValid, full_ring-IsValid, some_ne_none}

drain_ring_to_reads-Served_example :
    let (ring', queue', done) =
      drain_ring_to_reads list_wdf two_ring (request 3 ∷ request 4 ∷ []) in
    Served list_wdf two_ring (request 3 ∷ request 4 ∷ []) ring' queue' done
drain_ring_to_reads-Served_example =
    drain_ring_to_reads-Served list_wdf (request 3 ∷ request 4 ∷ []) two_ring-IsValid

drain_writes_to_ring-Moved_example :
    let (ring', queue', peer', done) =
      drain_writes_to_ring list_wdf two_ring (request 3 ∷ request 4 ∷ []) none in
    Moved list_wdf two_ring (request 3 ∷ request 4 ∷ []) [] ring' queue' (held list_wdf peer') done
drain_writes_to_ring-Moved_example =
    drain_writes_to_ring-Moved list_wdf (request 3 ∷ request 4 ∷ []) none two_ring-IsValid

full-IsSettled : IsSettled list_wdf full_ring [] []
full-IsSettled = record { valid = full_ring-IsValid; readers = inr refl; writers = inr refl }

two-IsSettled : IsSettled list_wdf two_ring [] []
two-IsSettled = record { valid = two_ring-IsValid; readers = inr refl; writers = inr refl }

com_evt_read-Flow_example :
    Ends (ComReadFlow list_wdf pair (request 3)) (com_evt_read list_wdf pair (request 3) 9)
com_evt_read-Flow_example =
    com_evt_read-Flow list_wdf pair (request 3) 9 (omega arith) (some_ne_none []) two-IsSettled refl

com_evt_write-Flow_example :
    Ends (ComWriteFlow list_wdf pair (request 3)) (com_evt_write list_wdf pair (request 3) 2)
com_evt_write-Flow_example =
    com_evt_write-Flow list_wdf pair (request 3) 2 (omega arith) (some_ne_none []) full-IsSettled
      refl

comp_evt_read-Flow_example :
    Ends (CompReadFlow list_wdf pair (request 3)) (comp_evt_read list_wdf pair (request 3) 9)
comp_evt_read-Flow_example =
    comp_evt_read-Flow list_wdf pair (request 3) 9 (omega arith) (some_ne_none []) full-IsSettled
      refl

comp_evt_write-Flow_example :
    Ends (CompWriteFlow list_wdf pair (request 3)) (comp_evt_write list_wdf pair (request 3) 2)
comp_evt_write-Flow_example =
    comp_evt_write-Flow list_wdf pair (request 3) 2 (omega arith) (some_ne_none []) two-IsSettled
      refl

-- Five rounds do what the bound of the code does, with one write that waits and nobody who reads.
drain_rounds_example :
    (drain_reads list_wdf 5 two_ring (request 4 ∷ [])
      ≡ drain_ring_to_reads list_wdf two_ring (request 4 ∷ []))
    × (drain_writes list_wdf 5 two_ring (request 4 ∷ []) none
        ≡ drain_writes_to_ring list_wdf two_ring (request 4 ∷ []) none)
drain_rounds_example = drain_rounds list_wdf 5 two_ring (request 4 ∷ []) none (omega arith)

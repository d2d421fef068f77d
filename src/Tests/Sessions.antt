-- ===== src/Tests/Sessions.antt =====
-- Requests of both sides of a pair (driver/src/comport.c and companion.c), one after the other.
use ghostcom.Base.{refl, inr, List, [], ◌∷◌}
use ghostcom.Com.Ioctl.{char_immediate, mask_set, purge_queues}
use ghostcom.Companion.Signals.{wait_signal_change}
use ghostcom.Session.{Event, com_read, com_write, comp_read, comp_write, com_ioctl, comp_ioctl, run}
use ghostcom.Session.Calm.{IsCalm}
use ghostcom.Session.Run.{RunKept, run-IsKept}
use ghostcom.Tests.Model.{list_wdf, TestRequest, request, pair, two_ring-IsValid, full_ring-IsValid}

pair-IsCalm : IsCalm list_wdf pair
pair-IsCalm = record {
  to_com = record { valid = two_ring-IsValid; readers = inr refl; there = refl };
  to_companion = record { valid = full_ring-IsValid; readers = inr refl; there = refl };
  com_writes = refl;
  comp_writes = refl;
  signals = refl;
  masks = refl;
}

-- A write that waits for room, and a read that makes it; a read that waits, and a write that serves
-- it; a character out of turn; the waits for an event purged; a wait for a signal; and a purge.
abbrev eight_events : List (Event TestRequest)
eight_events =
    com_write (request 3) 2
    ∷ comp_read (request 4) 1
    ∷ com_read (request 5) 9
    ∷ comp_write (request 6) 3
    ∷ com_ioctl (request 7) char_immediate
    ∷ com_ioctl (request 8) mask_set
    ∷ comp_ioctl (request 9) wait_signal_change
    ∷ com_ioctl (request 10) purge_queues
    ∷ []

run-IsKept_example : RunKept list_wdf [] pair eight_events (run list_wdf [] pair eight_events)
run-IsKept_example = run-IsKept list_wdf [] pair eight_events pair-IsCalm refl

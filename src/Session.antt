-- ===== src/Session.antt =====
-- driver/src/comport.c and companion.c: the requests that the framework hands to the handlers that
-- GcomComPortCreate and GcomCompanionCreate register, one after the other on one pair.
pub mod Calm
pub mod Tended
pub mod Data
pub mod Told
pub mod Ioctls
pub mod Signals
pub mod Run
use ghostcom.Base.{ℕ, Bool, true, false, ◌&&◌, Option, none, some, List, [], ◌∷◌, ◌++◌}
use ghostcom.Base.{ltb, bit_and, if◌then◌else◌}
use ghostcom.Status.{nt_success}
use ghostcom.Bytes.{get32}
use ghostcom.Wdf.{Wdf, Completion, held}
use ghostcom.Pair.{PortPair}
use ghostcom.Ntddser.{purge_txabort, purge_rxabort}
use ghostcom.Com.{com_evt_read, com_evt_write}
use ghostcom.Com.Lines.{is_set}
use ghostcom.Com.Ioctl.{ComIoctl, mask_set, purge_queues, com_evt_ioctl}
use ghostcom.Companion.{comp_evt_read, comp_evt_write}
use ghostcom.Companion.Signals.{CompIoctl, comp_evt_ioctl}

-- A request, for the handler of its kind; a read or a write with its length.
pub data Event (Request : Type 0) : Type 0 where
  com_read com_write comp_read comp_write : Request → ℕ → Event Request
  com_ioctl : Request → ComIoctl → Event Request
  comp_ioctl : Request → CompIoctl → Event Request

module _ {Request : Type 0} where
  abbrev pub request_of : Event Request → Request
  request_of (com_read request len) = request
  request_of (com_write request len) = request
  request_of (comp_read request len) = request
  request_of (comp_write request len) = request
  request_of (com_ioctl request code) = request
  request_of (comp_ioctl request code) = request

  abbrev pub arrived : List (Event Request) → List Request
  arrived [] = []
  arrived (event ∷ events) = request_of event ∷ arrived events

  -- A read or a write of no bytes does not get to its handler: the queues that are made do not
  -- allow them, and the framework completes them.
  abbrev pub gets_through : Event Request → Bool
  gets_through (com_read request len) = ltb 0 len
  gets_through (com_write request len) = ltb 0 len
  gets_through (comp_read request len) = ltb 0 len
  gets_through (comp_write request len) = ltb 0 len
  gets_through (com_ioctl request code) = true
  gets_through (comp_ioctl request code) = true

  abbrev pub all_get_through : List (Event Request) → Bool
  all_get_through [] = true
  all_get_through (event ∷ events) = gets_through event && all_get_through events

module _ (wdf : Wdf) where
  open wdf use {Request, Queue, input_buffer}

  -- What the queues that IOCTL_SERIAL_PURGE aborts hold.
  abbrev pub aborted_by : PortPair Queue → ℕ → List Request
  aborted_by pp flags =
      (if is_set (bit_and flags purge_txabort) then held wdf pp.com_write_queue else [])
      ++ (if is_set (bit_and flags purge_rxabort) then held wdf pp.com_read_queue else [])

  -- What the purges of an IOCTL cancel, if it gets to them.
  abbrev pub cancelled_by : PortPair Queue → Request → ComIoctl → List Request
  cancelled_by pp request mask_set =
      if nt_success (input_buffer request 4).0 then held wdf pp.wait_mask_queue else []
  cancelled_by pp request purge_queues =
      if nt_success (input_buffer request 4).0
      then aborted_by pp (get32 (input_buffer request 4).1 0)
      else []
  cancelled_by pp request _ = []

  -- The requests that the framework cancels since a handler purges their queue.
  abbrev pub cancelled : PortPair Queue → Event Request → List Request
  cancelled pp (com_ioctl request code) = if pp.active then cancelled_by pp request code else []
  cancelled pp _ = []

module _ (wdf : Wdf) (comm_prop : List ℕ) where
  open wdf use {Request, Queue}

  -- The handler that is registered for a request.
  unfoldable pub serve :
      PortPair Queue → Event Request → Option (PortPair Queue × List (Completion Request))
  serve pp (com_read request len) = com_evt_read wdf pp request len
  serve pp (com_write request len) = com_evt_write wdf pp request len
  serve pp (comp_read request len) = comp_evt_read wdf pp request len
  serve pp (comp_write request len) = comp_evt_write wdf pp request len
  serve pp (com_ioctl request code) = com_evt_ioctl wdf comm_prop pp request code
  serve pp (comp_ioctl request code) = comp_evt_ioctl wdf pp request code

  abbrev pub Served : Type 0
  Served = PortPair Queue × List (Completion Request) × List Request

  -- One request after the other, with what is completed and what is cancelled. `none`: a NULL handle
  -- was used.
  abbrev pub and_then : List (Completion Request) → List Request → Option Served → Option Served
  and_then done gone none = none
  and_then done gone (some (pp, done', gone')) = some (pp, done ++ done', gone ++ gone')

  unfoldable pub run : PortPair Queue → List (Event Request) → Option Served
  run pp [] = some (pp, [], [])
  run pp (event ∷ events) = elim (serve pp event) [
    | none ↦ none
    | some (pp', done) ↦ and_then done (cancelled wdf pp event) (run pp' events)
  ]

-- ===== src/Life.antt =====
-- driver/src/portpair.c and the file callbacks of comport.c and companion.c: who holds a port pair,
-- and when it is freed. An `Option` of a pair is `none` once the pair is freed.

pub mod World
pub mod Handles
use ghostcom.Base.{
  ℕ, Bool, true, false, not, Option, none, some, if◌then◌else◌, ◌==◌, List, [], ◌∷◌, ◌++◌,
}
use ghostcom.Status.{success, device_not_connected, sharing_violation}
use ghostcom.Word.{add32, sub32}
use ghostcom.Ring.{free}
use ghostcom.Wdf.{Wdf, Completion, complete}
use ghostcom.Pair.{PortPair}
use ghostcom.Changed.{changed_com_open, changed_com_close}
use ghostcom.Signal.{signal_changed}

module _ {Queue : Type 0} where
  -- GcomPortPairAddRef
  unfoldable pub add_ref : PortPair Queue → PortPair Queue
  add_ref pp = record pp { ref_count = add32 pp.ref_count 1 }

  -- GcomPortPairRelease
  unfoldable pub release : PortPair Queue → Option (PortPair Queue)
  release pp =
      let count = sub32 pp.ref_count 1 in
      if count == 0 then none else some (record pp { ref_count = count })

  -- GcomPortPairDestroy, but for the port table: the devices with their queues, and the rings' storage,
  -- go, and the reference of the creation is dropped.
  unfoldable pub pair_destroy : PortPair Queue → Option (PortPair Queue)
  pair_destroy pp = release (record pp {
    active = false;
    com_device = none;
    companion_device = none;
    com_sym_link = false;
    comp_sym_link = false;
    signal_lock = false;
    data_lock = false;
    signal_wait_queue = none;
    wait_mask_queue = none;
    com_read_queue = none;
    com_write_queue = none;
    comp_read_queue = none;
    comp_write_queue = none;
    com_to_companion = free pp.com_to_companion;
    companion_to_com = free pp.companion_to_com;
  })

module _ (wdf : Wdf) where
  open wdf use {Request, Queue}

  -- GcomComEvtFileCreate: the pair, whether the file object has it, and the completions.
  unfoldable pub com_file_create :
      PortPair Queue → Request → PortPair Queue × Bool × List (Completion Request)
  com_file_create pp request =
      if not pp.active
      then (pp, false, complete request device_not_connected ∷ [])
      else if not (pp.com_side_open == 0)
      then (pp, false, complete request sharing_violation ∷ [])
      else let (pp', told) =
          signal_changed wdf (add_ref (record pp { com_side_open = 1 })) changed_com_open in
        (pp', true, told ++ (complete request success ∷ []))

  -- GcomComEvtFileClose, on a file object that has the pair.
  unfoldable pub com_file_close :
      PortPair Queue → Option (PortPair Queue) × List (Completion Request)
  com_file_close pp =
      let closed = record pp { com_side_open = 0 } in
      let (pp', told) =
        if pp.active then signal_changed wdf closed changed_com_close else (closed, []) in
      (release pp', told)

  -- GcomCompEvtFileCreate
  unfoldable pub comp_file_create :
      PortPair Queue → Request → PortPair Queue × Bool × List (Completion Request)
  comp_file_create pp request =
      if not pp.active
      then (pp, false, complete request device_not_connected ∷ [])
      else if not (pp.companion_side_open == 0)
      then (pp, false, complete request sharing_violation ∷ [])
      else (add_ref (record pp { companion_side_open = 1 }), true, complete request success ∷ [])

  -- GcomCompEvtFileClose, on a file object that has the pair.
  unfoldable pub comp_file_close : PortPair Queue → Option (PortPair Queue)
  comp_file_close pp = release (if pp.active then record pp { companion_side_open = 0 } else pp)

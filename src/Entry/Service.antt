-- ===== src/Entry/Service.antt =====
-- The driver from the addition of its device on: the requests to the control device, the files and the
-- requests of both sides of every pair, and the cleanup, one after the other.
use ghostcom.Base.{
  ℕ, ==_iff, ◌≡◌, refl, sym, ap, subst, Bool, true, false, ◌||◌, Option, none, some, List, length,
}
use ghostcom.Status.{Status, success}
use ghostcom.Wdf.{Wdf, Completion}
use ghostcom.Pair.{PortPair}
use ghostcom.Life.{com_file_create, com_file_close, comp_file_create, comp_file_close}
use ghostcom.Kernel.{Kernel, DeviceCalls}
use ghostcom.Table.{Driver, put}
use ghostcom.Table.Well.{IsWell}
use ghostcom.Table.Touched.{touched_IsSound}
use ghostcom.Create.{PairCalls}
use ghostcom.Destroy.{DestroyCalls, self_managed_io_cleanup}
use ghostcom.Destroy.Cleanup.{self_managed_io_cleanup-IsWell}
use ghostcom.Control.{ControlIoctl, control_io_device_control}
use ghostcom.Control.Keeps.{control_io_device_control-IsWell}
use ghostcom.Transfer.{Ends}
use ghostcom.Session.{Event, gets_through, serve}
use ghostcom.Entry.{device_add}
use ghostcom.Entry.Start.{device_add-HoldsUnused}
use ghostcom.Entry.Owned.{IsOwned, Held, IsTouched}
use ghostcom.Entry.Owned.Closing.{com_file_close-Held, comp_file_close-Held}
use ghostcom.Entry.Owned.Opening.{com_file_create-Opened, comp_file_create-Opened}
use ghostcom.Entry.Owned.Serving.{ServedOwned, serve-ServedOwned}
use ghostcom.Entry.Fine.{Files, mark, at_all, IsFine, put-IsFine, control_io_device_control-IsFine}
use ghostcom.Entry.Fine.Emptied.{self_managed_io_cleanup-IsFine}

-- The driver with a pair written.
abbrev pub written : {Queue : Type 0} → Driver Queue → ℕ → Option (PortPair Queue) → Driver Queue
written d p left = record d { heap = put d.heap p left }

-- The outcomes of the calls of a creation, where memory that is given is not in use, and as long as was
-- asked for.
pub record IsSupplied {Queue : Type 0} (d : Driver Queue) (calls : PairCalls Queue) : Type 0 where
  pub fresh : (p : ℕ) → calls.pair_memory ≡ some p → d.heap p ≡ none
  pub first_long : (block : List ℕ) → calls.first_ring 65536 ≡ some block → length block ≡ 65536
  pub second_long : (block : List ℕ) → calls.second_ring 65536 ≡ some block → length block ≡ 65536

module _ (wdf : Wdf) (comm_prop : List ℕ) where
  open wdf use {Queue, Request}

  -- What is reached from an addition of the device, with the files that are open on the pairs: by
  -- requests to the control device, opens of the devices of a pair in memory, closes of open files,
  -- requests to a pair in memory, and the cleanup.
  pub data Serves : Driver Queue → Files → Type 0 where
    added :
        {d : Driver Queue}
        → (created lock : Status) (control : DeviceCalls Queue) (g_dev_ctx : Bool) (k : Kernel)
        → device_add created lock control g_dev_ctx k ≡ (success, some d)
        → Serves d (record { com_open = λ p. false; comp_open = λ p. false })
    requested :
        {d : Driver Queue} {files : Files}
        → (creating : PairCalls Queue) (destroying : DestroyCalls) (request : Request)
          (code : ControlIoctl)
        → IsSupplied d creating
        → Serves d files
        → Serves (control_io_device_control wdf creating destroying d request code).0 files
    com_opened :
        {d : Driver Queue} {files : Files}
        → (p : ℕ) (pp : PortPair Queue) (request : Request) → d.heap p ≡ some pp
        → Serves d files
        → Serves (written d p (some (com_file_create wdf pp request).0)) (record files {
          com_open = mark files.com_open p ((com_file_create wdf pp request).1 || files.com_open p);
        })
    comp_opened :
        {d : Driver Queue} {files : Files}
        → (p : ℕ) (pp : PortPair Queue) (request : Request) → d.heap p ≡ some pp
        → Serves d files
        → Serves (written d p (some (comp_file_create wdf pp request).0)) (record files {
          comp_open =
              mark files.comp_open p ((comp_file_create wdf pp request).1 || files.comp_open p);
        })
    com_closed :
        {d : Driver Queue} {files : Files}
        → (p : ℕ) (pp : PortPair Queue) → d.heap p ≡ some pp
        → files.com_open p ≡ true
        → Serves d files
        → Serves
            (written d p (com_file_close wdf pp).0)
            (record files { com_open = mark files.com_open p false })
    comp_closed :
        {d : Driver Queue} {files : Files}
        → (p : ℕ) (pp : PortPair Queue) → d.heap p ≡ some pp
        → files.comp_open p ≡ true
        → Serves d files
        → Serves
            (written d p (comp_file_close wdf pp))
            (record files { comp_open = mark files.comp_open p false })
    served :
        {d : Driver Queue} {files : Files}
        → (p : ℕ) (pp pp' : PortPair Queue) (event : Event Request)
          (done : List (Completion Request))
        → d.heap p ≡ some pp
        → gets_through event ≡ true
        → serve wdf comm_prop pp event ≡ some (pp', done)
        → Serves d files
        → Serves (written d p (some pp')) files
    cleaned :
        {d : Driver Queue} {files : Files}
        → (calls : ℕ → DestroyCalls) → Serves d files
        → Serves (self_managed_io_cleanup calls d) files

  -- The table and all pairs in memory are as they are to be.
  abbrev pub IsServed : Driver Queue → Files → Type 0
  IsServed d files = IsWell d × IsFine wdf d.heap files

  written-IsWell :
      (d : Driver Queue) (p : ℕ) (pp : PortPair Queue) (left : Option (PortPair Queue))
      → d.heap p ≡ some pp
      → IsTouched wdf pp left
      → IsWell d
      → IsWell (written d p left)
  written-IsWell d p pp left there touched w = record {
    long = w.long;
    counted = w.counted;
    sound = touched_IsSound d.heap p pp there left d.ports touched w.sound;
  }

  -- The pair at a pointer, with its files.
  IsOwned-at :
      (d : Driver Queue) (files : Files) (p : ℕ) (pp : PortPair Queue)
      → d.heap p ≡ some pp
      → IsFine wdf d.heap files
      → IsOwned wdf pp (files.com_open p) (files.comp_open p)
  IsOwned-at d files p pp there fine =
      subst (λ o. Held wdf o (files.com_open p) (files.comp_open p)) there (fine p)

  marked_com :
      (d : Driver Queue) (files : Files) (p : ℕ) (left : Option (PortPair Queue)) (b : Bool)
      → Held wdf left b (files.comp_open p)
      → IsFine wdf d.heap files
      → IsFine wdf (put d.heap p left) (record files { com_open = mark files.com_open p b })
  marked_com d files p left b h fine =
      at_all (λ q. Held wdf (put d.heap p left q) (mark files.com_open p b q) (files.comp_open q)) p
        (rw ((==_iff p p).1 refl) h) (λ q apart. rw apart (fine q))

  marked_comp :
      (d : Driver Queue) (files : Files) (p : ℕ) (left : Option (PortPair Queue)) (b : Bool)
      → Held wdf left (files.com_open p) b
      → IsFine wdf d.heap files
      → IsFine wdf (put d.heap p left) (record files { comp_open = mark files.comp_open p b })
  marked_comp d files p left b h fine =
      at_all (λ q. Held wdf (put d.heap p left q) (files.com_open q) (mark files.comp_open p b q)) p
        (rw ((==_iff p p).1 refl) h) (λ q apart. rw apart (fine q))

  -- From a successful addition of the device on, through any sequence of requests to the
  -- control device, opens and closes of both sides of the pairs, requests to the pairs (reads
  -- and writes of one byte at least, and the IOCTLs), and clean-ups: the port table has its
  -- 64 entries, its count is the number of entries that are not NULL, and its pointers lead
  -- to active pairs, no two of which have the same port number; each pair in memory has one
  -- reference for each side with an open file and one of its creation while it is active, and
  -- is freed with the last; no file is open on memory that is free; and each active pair
  -- knows which of its sides are open, has valid rings, no read that waits while there are
  -- bytes for it, and all six of its queues. Memory that is given for a new pair is not in
  -- use, and memory for a ring is as long as was asked for.
  pub Serves-IsServed : {d : Driver Queue} {files : Files} → Serves d files → IsServed d files
  Serves-IsServed (added {d} created lock control g_dev_ctx k e) =
      let (w, empty) =
        (device_add-HoldsUnused created lock control g_dev_ctx k).unused d (ap (λ r. r.1) e) in
      (w, λ q. subst (λ o. Held wdf o false false) (sym (empty q)) (refl, refl))
  Serves-IsServed (requested {d} {files} creating destroying request code supplied s) =
      let (w, fine) = Serves-IsServed s in
      (
        control_io_device_control-IsWell wdf creating destroying d supplied.fresh request code w,
        control_io_device_control-IsFine wdf creating destroying supplied.first_long
            supplied.second_long d files w supplied.fresh fine request code,
      )
  Serves-IsServed (com_opened {d} {files} p pp request there s) =
      let (w, fine) = Serves-IsServed s in
      let (owned, touched) =
        com_file_create-Opened wdf pp request _ _ (IsOwned-at d files p pp there fine) in
      (written-IsWell d p pp _ there touched w, marked_com d files p _ _ owned fine)
  Serves-IsServed (comp_opened {d} {files} p pp request there s) =
      let (w, fine) = Serves-IsServed s in
      let (owned, touched) =
        comp_file_create-Opened wdf pp request _ _ (IsOwned-at d files p pp there fine) in
      (written-IsWell d p pp _ there touched w, marked_comp d files p _ _ owned fine)
  Serves-IsServed (com_closed {d} {files} p pp there opened s) =
      let (w, fine) = Serves-IsServed s in
      let (held, touched) = com_file_close-Held wdf pp (files.comp_open p) (
        subst (λ b. IsOwned wdf pp b (files.comp_open p)) opened
          (IsOwned-at d files p pp there fine)) in
      (written-IsWell d p pp _ there touched w, marked_com d files p _ _ held fine)
  Serves-IsServed (comp_closed {d} {files} p pp there opened s) =
      let (w, fine) = Serves-IsServed s in
      let (held, touched) = comp_file_close-Held wdf pp (files.com_open p) (
        subst (λ b. IsOwned wdf pp (files.com_open p) b) opened
          (IsOwned-at d files p pp there fine)) in
      (written-IsWell d p pp _ there touched w, marked_comp d files p _ _ held fine)
  Serves-IsServed (served {d} {files} p pp pp' event done there h e s) =
      let (w, fine) = Serves-IsServed s in
      let (owned, touched) =
        subst
          (λ result.
            Ends (ServedOwned wdf comm_prop pp (files.com_open p) (files.comp_open p)) result)
          e (serve-ServedOwned wdf comm_prop pp event h (IsOwned-at d files p pp there fine)) in
      (written-IsWell d p pp _ there touched w, put-IsFine wdf d.heap files p _ owned fine)
  Serves-IsServed (cleaned {d} {files} calls s) =
      let (w, fine) = Serves-IsServed s in
      (
        (self_managed_io_cleanup-IsWell calls d w).0,
        self_managed_io_cleanup-IsFine wdf files calls d w fine,
      )

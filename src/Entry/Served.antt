-- ===== src/Entry/Served.antt =====
-- A request to a pair, in any state of the driver.
use ghostcom.Base.{ℕ, ◌≡◌, refl, sym, subst, true, false, Bool-cases, inl, inr}
use ghostcom.Base.{List, [], ◌∷◌, some}
use ghostcom.Status.{device_not_connected}
use ghostcom.Wdf.{Wdf, Completion, complete}
use ghostcom.Pair.{PortPair}
use ghostcom.Table.{Driver}
use ghostcom.Transfer.{Ends}
use ghostcom.Transfer.Steps.{Ends-map}
use ghostcom.Session.{Event, request_of, gets_through, cancelled, serve}
use ghostcom.Session.Calm.{IsKept}
use ghostcom.Session.Run.{serve-IsKept}
use ghostcom.Entry.Owned.{Held}
use ghostcom.Entry.Owned.Serving.{serve-inactive}
use ghostcom.Entry.Fine.{Files}
use ghostcom.Entry.Service.{Serves, Serves-IsServed}

module _ (wdf : Wdf) (comm_prop : List ℕ) where
  open wdf use {Queue, Request}

  -- What a request does to a pair in memory, active or not.
  abbrev pub IsAnswered :
      PortPair Queue → Event Request → PortPair Queue × List (Completion Request) → Type 0
  IsAnswered pp event out =
      (pp.active ≡ true → IsKept wdf pp (request_of event ∷ []) (cancelled wdf pp event) out)
      × (pp.active ≡ false → out ≡ (pp, complete (request_of event) device_not_connected ∷ []))

  -- In any state that the driver reaches by such steps, a request of either side to a pair in
  -- memory comes to an end: no handler uses a queue that is not there. On an active pair the
  -- request and those that waited are each completed, cancelled or waiting, once, and the
  -- pair keeps what holds between two requests; on an inactive pair the request is completed
  -- with STATUS_DEVICE_NOT_CONNECTED and nothing else is done. A read or a write is of one
  -- byte at least.
  pub Serves-IsAnswered :
      {d : Driver Queue} {files : Files} (p : ℕ) (pp : PortPair Queue) (event : Event Request)
      → Serves wdf comm_prop d files
      → d.heap p ≡ some pp
      → gets_through event ≡ true
      → Ends (IsAnswered pp event) (serve wdf comm_prop pp event)
  Serves-IsAnswered {d} {files} p pp event s there h =
      let owned =
        subst (λ o. Held wdf o (files.com_open p) (files.comp_open p)) there
          ((Serves-IsServed wdf comm_prop s).1 p) in
      elim (Bool-cases pp.active) [
        | inr off ↦
            subst (λ result. Ends (IsAnswered pp event) result)
              (sym (serve-inactive wdf comm_prop pp event off))
              (λ on. absurd (cc (on, off)), λ _. refl)
        | inl on ↦
            Ends-map (serve wdf comm_prop pp event)
              (λ out k. (λ _. k, λ off. absurd (cc (on, off))))
              (serve-IsKept wdf comm_prop pp event h (owned.ready on).2)
      ]

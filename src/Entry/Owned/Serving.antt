-- ===== src/Entry/Owned/Serving.antt =====
-- A request to a pair, active or not, with the files that are open on it.
use ghostcom.Base.{ℕ, ◌≡◌, ap, Bool, true, false, Bool-cases, inl, inr, subst, sym, refl}
use ghostcom.Base.{List, [], ◌∷◌, some, if◌then◌else◌}
use ghostcom.Status.{device_not_connected}
use ghostcom.Wdf.{Wdf, Completion, complete}
use ghostcom.Pair.{PortPair}
use ghostcom.Transfer.{Ends}
use ghostcom.Transfer.Steps.{Ends-map}
use ghostcom.Com.{com_evt_read, com_evt_write}
use ghostcom.Com.Ioctl.{com_evt_ioctl}
use ghostcom.Companion.{comp_evt_read, comp_evt_write}
use ghostcom.Companion.Signals.{comp_evt_ioctl}
use ghostcom.Session.{
  Event, com_read, com_write, comp_read, comp_write, com_ioctl, comp_ioctl, request_of,
  gets_through, cancelled, serve,
}
use ghostcom.Session.Calm.{IsKept}
use ghostcom.Session.Run.{serve-IsKept}
use ghostcom.Entry.Owned.{IsOwned, IsTouched, IsOwned-same}

off_lem : {A : Type 0} (x y : A) (b : Bool) → b ≡ false → (if b then x else y) ≡ y
off_lem x y true h = absurd (cc h)
off_lem x y false h = refl

module _ (wdf : Wdf) (comm_prop : List ℕ) (pp : PortPair wdf.Queue) where
  open wdf use {Request, Queue}

  -- A pair that is not active is left as it is, and the request is completed with the error.
  pub serve-inactive :
      (event : Event Request)
      → pp.active ≡ false
      → serve wdf comm_prop pp event
        ≡ some (pp, complete (request_of event) device_not_connected ∷ [])
  unfolding serve com_evt_read com_evt_write comp_evt_read comp_evt_write com_evt_ioctl
      comp_evt_ioctl
  serve-inactive (com_read request len) off = off_lem _ _ pp.active off
  serve-inactive (com_write request len) off = off_lem _ _ pp.active off
  serve-inactive (comp_read request len) off = off_lem _ _ pp.active off
  serve-inactive (comp_write request len) off = off_lem _ _ pp.active off
  serve-inactive (com_ioctl request code) off = off_lem _ _ pp.active off
  serve-inactive (comp_ioctl request code) off = off_lem _ _ pp.active off

  abbrev pub ServedOwned : Bool → Bool → PortPair Queue × List (Completion Request) → Type 0
  ServedOwned com_open comp_open out =
      IsOwned wdf out.0 com_open comp_open × IsTouched wdf pp (some out.0)

  -- A request comes to an end, and the pair is still owned as before.
  pub serve-ServedOwned :
      {com_open comp_open : Bool} (event : Event Request)
      → gets_through event ≡ true
      → IsOwned wdf pp com_open comp_open
      → Ends (ServedOwned com_open comp_open) (serve wdf comm_prop pp event)
  serve-ServedOwned {com_open} {comp_open} event h o = elim (Bool-cases pp.active) [
    | inr off ↦
        subst (λ result. Ends (ServedOwned com_open comp_open) result)
          (sym (serve-inactive event off)) (o, inl off)
    | inl on ↦
        Ends-map (serve wdf comm_prop pp event)
          (λ out (k : IsKept wdf pp (request_of event ∷ []) (cancelled wdf pp event) out). (
            IsOwned-same wdf out.0 k.same (λ _. k.calm) o,
            inr (out.0, refl, ap (λ i. i.2) k.same, ap (λ i. i.0) k.same),
          ))
          (serve-IsKept wdf comm_prop pp event h (o.ready on).2)
  ]

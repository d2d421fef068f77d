-- ===== src/Session/Run.antt =====
-- Any sequence of requests on a pair: it comes to an end, and no request is lost or completed twice.
use ghostcom.Base.{ℕ, Bool, true, false, ◌≡◌, ◌≢◌, refl, sym, ap, subst, ◌∙◌, arith}
use ghostcom.Base.{List, [], ◌∷◌, Option, none, some, if◌then◌else◌}
use ghostcom.Base.{total, total-append, Option-cases, inl, inr}
use ghostcom.Status.{device_not_connected}
use ghostcom.Wdf.{Wdf, Completion, complete, requests-append, requests}
use ghostcom.Pair.{PortPair}
use ghostcom.Transfer.{Ends}
use ghostcom.Transfer.Steps.{Ends-map}
use ghostcom.Com.Ioctl.{
  ComIoctl, mask_set, purge_queues, char_immediate, com_evt_ioctl, com_ioctl_active,
}
use ghostcom.Com.Ioctl.Once.{moves, com_evt_ioctl-IsHandled}
use ghostcom.Session.{
  Event, com_read, com_write, comp_read, comp_write, com_ioctl, comp_ioctl, request_of, arrived,
  gets_through, all_get_through, cancelled_by, cancelled, serve, run, Served, and_then,
}
use ghostcom.Session.Calm.{IsCalm, IsKept}
use ghostcom.Session.Data.{
  answered-IsKept, com_evt_read-IsKept, com_evt_write-IsKept, comp_evt_read-IsKept,
  comp_evt_write-IsKept,
}
use ghostcom.Session.Ioctls.{serial_purge-IsKept, set_wait_mask-IsKept, immediate_char-IsKept}
use ghostcom.Session.Signals.{comp_evt_ioctl-IsKept}
use ghostcom.Session.Told.{IsHandled-IsKept}

module _ (wdf : Wdf) (comm_prop : List ℕ) where
  open wdf use {Request, Queue}

  module _ (pp : PortPair Queue) (calm : IsCalm wdf pp) (request : Request) where
    abbrev Keeps : List Request → Option (PortPair Queue × List (Completion Request)) → Type 0
    Keeps gone result = Ends (IsKept wdf pp (request ∷ []) gone) result

    -- An active pair's handler, or the error.
    switched :
        (b : Bool) (gone : List Request)
        → (result : Option (PortPair Queue × List (Completion Request))) → Keeps gone result
        → Keeps
            (if b then gone else [])
            (if b then result else some (pp, complete request device_not_connected ∷ []))
    switched true gone result h = h
    switched false gone result h = answered-IsKept wdf pp calm request _ refl

    there : pp.wait_mask_queue ≢ none
    there e = cc (e, calm.masks)

    -- The codes that move nothing cancel nothing.
    cancelled_by-nil :
        (code : ComIoctl) → moves wdf code ≡ false → cancelled_by wdf pp request code ≡ []
    cancelled_by-nil mask_set h = absurd (cc h)
    cancelled_by-nil purge_queues h = absurd (cc h)
    cancelled_by-nil _ h = refl

    handled :
        (code : ComIoctl)
        → moves wdf code ≡ false
        → Keeps
            (if pp.active then cancelled_by wdf pp request code else [])
            (com_evt_ioctl wdf comm_prop pp request code)
    handled code h =
        subst (λ gone. Keeps gone (com_evt_ioctl wdf comm_prop pp request code))
          (sym (
            ap (λ l. if pp.active then l else []) (cancelled_by-nil code h) ∙ nothing pp.active []))
          (Ends-map (com_evt_ioctl wdf comm_prop pp request code)
            (λ out. IsHandled-IsKept wdf pp request out calm)
            (com_evt_ioctl-IsHandled wdf comm_prop pp request there code h))
      where
        nothing : (b : Bool) (l : List Request) → (if b then l else l) ≡ l
        nothing true l = refl
        nothing false l = refl

    com_evt_ioctl-IsKept :
        (code : ComIoctl)
        → Keeps
            (if pp.active then cancelled_by wdf pp request code else [])
            (com_evt_ioctl wdf comm_prop pp request code)
    unfolding com_evt_ioctl com_ioctl_active
    com_evt_ioctl-IsKept mask_set =
        switched pp.active _ _ (set_wait_mask-IsKept wdf pp calm request)
    com_evt_ioctl-IsKept purge_queues =
        switched pp.active _ _ (serial_purge-IsKept wdf pp calm request)
    com_evt_ioctl-IsKept char_immediate =
        switched pp.active [] _ (immediate_char-IsKept wdf pp calm request)
    com_evt_ioctl-IsKept code = handled code refl

  -- What one request is to keep.
  abbrev pub Serves :
      PortPair Queue → Event Request → PortPair Queue × List (Completion Request) → Type 0
  Serves pp event out = IsKept wdf pp (request_of event ∷ []) (cancelled wdf pp event) out

  pub serve-IsKept :
      (pp : PortPair Queue) (event : Event Request)
      → gets_through event ≡ true
      → IsCalm wdf pp
      → Ends (Serves pp event) (serve wdf comm_prop pp event)
  unfolding serve
  serve-IsKept pp (com_read request len) h calm = com_evt_read-IsKept wdf pp calm request len h
  serve-IsKept pp (com_write request len) h calm = com_evt_write-IsKept wdf pp calm request len
  serve-IsKept pp (comp_read request len) h calm = comp_evt_read-IsKept wdf pp calm request len h
  serve-IsKept pp (comp_write request len) h calm = comp_evt_write-IsKept wdf pp calm request len
  serve-IsKept pp (com_ioctl request code) h calm = com_evt_ioctl-IsKept pp calm request code
  serve-IsKept pp (comp_ioctl request code) h calm = comp_evt_ioctl-IsKept wdf pp calm request code

  -- A run comes to an end, and keeps the pair.
  abbrev pub RunKept :
      PortPair Queue → List (Event Request) → Option (Served wdf comm_prop) → Type 0
  RunKept pp events none = ⊥
  RunKept pp events (some (pp', done, gone)) = IsKept wdf pp (arrived events) gone (pp', done)

  then_run :
      {pp pp' : PortPair Queue} (event : Event Request) (events : List (Event Request))
      {done : List (Completion Request)} {gone : List Request}
      (result : Option (Served wdf comm_prop))
      → IsKept wdf pp (request_of event ∷ []) gone (pp', done)
      → RunKept pp' events result
      → RunKept pp (event ∷ events) (and_then wdf comm_prop done gone result)
  then_run event events none k h = h
  then_run event events {done = done} {gone = gone} (some (last, done', gone')) k h = record {
    calm = h.calm;
    same = h.same ∙ k.same;
    once = λ weight. omega (
      arith,
      k.once weight,
      h.once weight,
      ap (total weight) (requests-append done done'),
      total-append weight (requests done) (requests done'),
      total-append weight gone gone',
    );
  }

  -- From a pair with valid rings, no read that waits while there are bytes for it, and all
  -- six of its queues, any sequence of requests of both sides (reads and writes of one byte
  -- at least, and the IOCTLs) comes to an end, and such a pair is left, with the same
  -- numbers, flags, references and ring sizes. However the requests are weighed, those
  -- completed, those cancelled by a purge and those that wait are together those that came
  -- and those that waited: each is one of the three, once.
  pub run-IsKept :
      (pp : PortPair Queue) (events : List (Event Request))
      → IsCalm wdf pp
      → all_get_through events ≡ true
      → RunKept pp events (run wdf comm_prop pp events)
  unfolding run
  run-IsKept pp [] calm h = record { calm = calm; same = refl; once = λ weight. refl }
  run-IsKept pp (event ∷ events) calm h =
      let served = serve-IsKept pp event (ground arith) calm in
      elim (Option-cases (serve wdf comm_prop pp event)) [
        | inl e ↦ absurd (subst (λ result. Ends (Serves pp event) result) e served)
        | inr ((pp', done), e) ↦
            let kept : Serves pp event (pp', done) =
              subst (λ result. Ends (Serves pp event) result) e served in
            rw (e, run)
              (then_run event events (run wdf comm_prop pp' events) kept
                (run-IsKept pp' events kept.calm (ground arith)))
      ]

-- ===== src/Create/Opened.antt =====
-- A file that is opened while GcomPortPairCreate is still at work: the COM port is there, the companion
-- is not yet.
use ghostcom.Base.{ℕ, ◌≡◌, refl, ap, ◌∙◌, true, false, inl, inr, Bool-cases}
use ghostcom.Base.{none}
use ghostcom.Status.{nt_success}
use ghostcom.Wdf.{Wdf}
use ghostcom.Kernel.{Making}
use ghostcom.Pair.{PortPair}
use ghostcom.Life.{com_file_create}
use ghostcom.Table.{Driver, is_reserved}
use ghostcom.Table.Sound.{put-same}
use ghostcom.Com.Device.{com_port_create}
use ghostcom.Create.{PairCalls, companion_or_back, fail_alloc, give_back}
use ghostcom.Create.Devices.{com_port_create-Ends}

module _ (wdf : Wdf) where
  open wdf use {Request, Queue}

  opens :
      (pp : PortPair Queue) (request : Request)
      → pp.active ≡ true
      → pp.com_side_open ≡ 0
      → (com_file_create wdf pp request).1 ≡ true
  unfolding com_file_create
  opens pp request live closed = rw (live, closed, com_file_create) refl

  freed : (slot p : ℕ) (s : Making Queue) (d : Driver Queue) → (fail_alloc slot p s d).heap p ≡ none
  unfolding fail_alloc give_back
  freed slot p s d = elim (Bool-cases (is_reserved slot d.ports)) [
    | inl still ↦ rw (still, fail_alloc) (put-same d.heap p none)
    | inr taken ↦ rw (taken, fail_alloc) (put-same d.heap p none)
  ]

  module _ (calls : PairCalls Queue) (number : ℕ) (s : Making Queue) (request : Request) where
    -- The pair once its COM port is made, and once a file has been opened on that.
    abbrev pub made : Making Queue
    made = (com_port_create calls.com_calls number s).1

    abbrev pub opened : Making Queue
    opened = record made { pair = (com_file_create wdf made.pair request).0 }

    -- Where GcomComPortCreate has made the COM port of an active pair with no COM file, a
    -- file is then opened on it, and GcomCompanionCreate fails: the open is granted, and
    -- the clean-up of GcomPortPairCreate frees the pair under the file.
    pub com_file_create-fail_alloc :
        (slot p : ℕ) (d : Driver Queue)
        → s.pair.active ≡ true
        → s.pair.com_side_open ≡ 0
        → s.pair.com_sym_link ≡ false
        → nt_success (com_port_create calls.com_calls number s).0 ≡ true
        → nt_success (companion_or_back calls opened).0 ≡ false
        → ((com_file_create wdf made.pair request).1 ≡ true)
          × ((fail_alloc slot p (companion_or_back calls opened).1 (give_back slot d)).heap p
              ≡ none)
    com_file_create-fail_alloc slot p d live closed no_link good bad =
        elim (com_port_create-Ends calls.com_calls s number no_link) [
          | inl (failed, _) ↦ absurd (cc (good, failed))
          | inr (_, e) ↦ (
            opens made.pair request (ap (λ m. m.pair.active) e ∙ live)
                (ap (λ m. m.pair.com_side_open) e ∙ closed),
            freed slot p _ _,
          )
        ]

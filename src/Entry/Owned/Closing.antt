-- ===== src/Entry/Owned/Closing.antt =====
-- The close callbacks of both sides, on a pair with the files that are open on it.
use ghostcom.Base.{ℕ, ◌+◌, ◌≡◌, refl, sym, ap, ◌∙◌, arith, Bool, true, false}
use ghostcom.Base.{inl, inr, [], Option, if◌then◌else◌}
use ghostcom.Wdf.{Wdf}
use ghostcom.Pair.{PortPair}
use ghostcom.Kernel.{one_if}
use ghostcom.Changed.{changed_com_close}
use ghostcom.Signal.{signal_changed}
use ghostcom.Life.{release, com_file_close, comp_file_close}
use ghostcom.Session.Calm.{IsCalm, IsCalm-flags, identity_of}
use ghostcom.Entry.Owned.{IsOwned, Held, IsTouched, told_IsKept, release-Held}

module _ (wdf : Wdf) where
  open wdf use {Request, Queue}

  -- A file of a side is closed: those who wait may have been told of it.
  module _ (pp : PortPair Queue) (com_open comp_open : Bool) (com_side comp_side : ℕ) where
    abbrev closed : PortPair Queue
    closed = record pp { com_side_open = com_side; companion_side_open = comp_side }

    closed-Held :
        (told : PortPair Queue)
        → identity_of wdf told ≡ identity_of wdf closed
        → pp.ref_count ≡ 1 + (one_if com_open + one_if comp_open + one_if pp.active)
        → (pp.active ≡ true
            → (com_side ≡ one_if com_open) × (comp_side ≡ one_if comp_open) × IsCalm wdf told)
        → Held wdf (release told) com_open comp_open × IsTouched wdf pp (release told)
    closed-Held told same count ready =
        let (owned, touched) =
          release-Held wdf told com_open comp_open
            (ap (λ i. i.5) same
              ∙ count
              ∙ ap (λ b. 1 + (one_if com_open + one_if comp_open + one_if b))
                  (sym (ap (λ i. i.2) same)))
            (λ on.
              let (com_known, comp_known, calm) = ready (sym (ap (λ i. i.2) same) ∙ on) in
              (ap (λ i. i.3) same ∙ com_known, ap (λ i. i.4) same ∙ comp_known, calm)) in
        (owned, go (release told) touched)
      where
        go : (left : Option (PortPair Queue)) → IsTouched wdf told left → IsTouched wdf pp left
        go left (inl off) = inl (sym (ap (λ i. i.2) same) ∙ off)
        go left (inr (pp', e, active, number)) =
            inr (pp', e, active ∙ ap (λ i. i.2) same, number ∙ ap (λ i. i.0) same)

  pub com_file_close-Held :
      (pp : PortPair Queue) (comp_open : Bool)
      → IsOwned wdf pp true comp_open
      → Held wdf (com_file_close wdf pp).0 false comp_open
        × IsTouched wdf pp (com_file_close wdf pp).0
  unfolding com_file_close
  com_file_close-Held pp comp_open o = go pp.active refl
    where
      done : PortPair Queue
      done = record pp { com_side_open = 0 }

      count : pp.ref_count ≡ 1 + (0 + one_if comp_open + one_if pp.active)
      count = omega (arith, o.references)

      go :
          (b : Bool)
          → pp.active ≡ b
          → let left =
              release (if b then signal_changed wdf done changed_com_close else (done, [])).0 in
            Held wdf left false comp_open × IsTouched wdf pp left
      go false off =
          closed-Held pp false comp_open 0 pp.companion_side_open done refl count
            (λ on. absurd (cc (on, off)))
      go true on =
          let (_, comp_known, calm) = o.ready on in
          let k = told_IsKept wdf done changed_com_close (IsCalm-flags wdf _ _ _ _ calm) in
          closed-Held pp false comp_open 0 pp.companion_side_open
            (signal_changed wdf done changed_com_close).0 k.same count
            (λ _. (refl, comp_known, k.calm))

  pub comp_file_close-Held :
      (pp : PortPair Queue) (com_open : Bool)
      → IsOwned wdf pp com_open true
      → Held wdf (comp_file_close wdf pp) com_open false × IsTouched wdf pp (comp_file_close wdf pp)
  unfolding comp_file_close
  comp_file_close-Held pp com_open o = go pp.active refl
    where
      done : PortPair Queue
      done = record pp { companion_side_open = 0 }

      count : pp.ref_count ≡ 1 + (one_if com_open + 0 + one_if pp.active)
      count = omega (arith, o.references)

      go :
          (b : Bool)
          → pp.active ≡ b
          → let left = release (if b then done else pp) in
            Held wdf left com_open false × IsTouched wdf pp left
      go false off =
          closed-Held pp com_open false pp.com_side_open pp.companion_side_open pp refl count
            (λ on. absurd (cc (on, off)))
      go true on =
          let (com_known, _, calm) = o.ready on in
          closed-Held pp com_open false pp.com_side_open 0 done refl count
            (λ _. (com_known, refl, IsCalm-flags wdf _ _ _ _ calm))

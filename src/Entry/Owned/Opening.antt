-- ===== src/Entry/Owned/Opening.antt =====
-- The open callbacks of both sides, on a pair with the files that are open on it.
use ghostcom.Base.{ℕ, suc, ◌++◌, ◌+◌, ◌≡◌, refl, ap, arith, Bool, true, false, not, ◌||◌}
use ghostcom.Base.{inl, inr, List, [], ◌∷◌, some, ◌==◌, if◌then◌else◌}
use ghostcom.Word.{add32}
use ghostcom.Status.{success, device_not_connected, sharing_violation}
use ghostcom.Wdf.{Wdf, Completion, complete}
use ghostcom.Pair.{PortPair}
use ghostcom.Kernel.{one_if}
use ghostcom.Changed.{changed_com_open}
use ghostcom.Signal.{signal_changed}
use ghostcom.Life.{add_ref, com_file_create, comp_file_create}
use ghostcom.Session.Calm.{IsCalm-flags}
use ghostcom.Entry.Owned.{IsOwned, IsTouched, IsOwned-same, told_IsKept, one_if_le}

module _ (wdf : Wdf) where
  open wdf use {Request, Queue}

  -- How an open ends: with whether the file got the pair.
  abbrev pub ComOpened :
      PortPair Queue → Bool → Bool → PortPair Queue × Bool × List (Completion Request) → Type 0
  ComOpened pp com_open comp_open out =
      IsOwned wdf out.0 (out.1 || com_open) comp_open × IsTouched wdf pp (some out.0)

  abbrev pub CompOpened :
      PortPair Queue → Bool → Bool → PortPair Queue × Bool × List (Completion Request) → Type 0
  CompOpened pp com_open comp_open out =
      IsOwned wdf out.0 com_open (out.1 || comp_open) × IsTouched wdf pp (some out.0)

  none_open : (b : Bool) (side : ℕ) → side ≡ one_if b → (side == 0) ≡ true → b ≡ false
  none_open true side h e = absurd (ground arith)
  none_open false side h e = refl

  -- A file gets an active pair, and one reference more.
  got_pair :
      {com_open comp_open : Bool} (pp : PortPair Queue) (com_now comp_now : Bool)
      (com_side comp_side : ℕ)
      → IsOwned wdf pp com_open comp_open
      → pp.active ≡ true
      → one_if com_now + one_if comp_now ≡ suc (one_if com_open + one_if comp_open)
      → com_side ≡ one_if com_now
      → comp_side ≡ one_if comp_now
      → IsOwned wdf
          (record pp {
            com_side_open = com_side;
            companion_side_open = comp_side;
            ref_count = add32 pp.ref_count 1;
          })
          com_now
          comp_now
  got_pair {com_open} {comp_open} pp com_now comp_now com_side comp_side o on more com_known
        comp_known =
      record {
        references =
            omega (
              arith,
              o.references,
              more,
              one_if_le com_now,
              one_if_le comp_now,
              one_if_le pp.active,
            );
        used =
            omega (
              arith,
              o.references,
              more,
              one_if_le com_now,
              one_if_le comp_now,
              one_if_le pp.active,
            );
        ready = λ _. (com_known, comp_known, IsCalm-flags wdf _ _ _ _ (o.ready on).2);
      }

  pub com_file_create-Opened :
      (pp : PortPair Queue) (request : Request) (com_open comp_open : Bool)
      → IsOwned wdf pp com_open comp_open
      → ComOpened pp com_open comp_open (com_file_create wdf pp request)
  unfolding com_file_create add_ref
  com_file_create-Opened pp request com_open comp_open o =
      go pp.active refl (pp.com_side_open == 0) refl
    where
      opened : PortPair Queue
      opened = record pp { com_side_open = 1; ref_count = add32 pp.ref_count 1 }

      go :
          (b : Bool)
          → pp.active ≡ b
          → (first : Bool) → (pp.com_side_open == 0) ≡ first
          → ComOpened pp com_open comp_open (
              if not b
              then (pp, false, complete request device_not_connected ∷ [])
              else if not first
              then (pp, false, complete request sharing_violation ∷ [])
              else let (pp', told) = signal_changed wdf opened changed_com_open in
                (pp', true, told ++ (complete request success ∷ [])))
      go false off first _ = (o, inl off)
      go true on false busy = (o, inr (pp, refl, refl, refl))
      go true on true free =
          let (com_known, comp_known, calm) = o.ready on in
          let unopened = none_open com_open pp.com_side_open com_known free in
          let k = told_IsKept wdf opened changed_com_open (IsCalm-flags wdf _ _ _ _ calm) in
          (
            IsOwned-same wdf (signal_changed wdf opened changed_com_open).0 k.same (λ _. k.calm)
                (got_pair pp true comp_open 1 pp.companion_side_open o on
                  (omega (arith, ap one_if unopened)) refl comp_known),
            inr (_, refl, ap (λ i. i.2) k.same, ap (λ i. i.0) k.same),
          )

  pub comp_file_create-Opened :
      (pp : PortPair Queue) (request : Request) (com_open comp_open : Bool)
      → IsOwned wdf pp com_open comp_open
      → CompOpened pp com_open comp_open (comp_file_create wdf pp request)
  unfolding comp_file_create add_ref
  comp_file_create-Opened pp request com_open comp_open o =
      go pp.active refl (pp.companion_side_open == 0) refl
    where
      opened : PortPair Queue
      opened = record pp { companion_side_open = 1; ref_count = add32 pp.ref_count 1 }

      go :
          (b : Bool)
          → pp.active ≡ b
          → (first : Bool) → (pp.companion_side_open == 0) ≡ first
          → CompOpened pp com_open comp_open (
              if not b
              then (pp, false, complete request device_not_connected ∷ [])
              else if not first
              then (pp, false, complete request sharing_violation ∷ [])
              else (opened, true, complete request success ∷ []))
      go false off first _ = (o, inl off)
      go true on false busy = (o, inr (pp, refl, refl, refl))
      go true on true free =
          let (com_known, comp_known, calm) = o.ready on in
          let unopened = none_open comp_open pp.companion_side_open comp_known free in
          (
            got_pair pp com_open true pp.com_side_open 1 o on (omega (arith, ap one_if unopened))
                com_known refl,
            inr (opened, refl, refl, refl),
          )

-- ===== src/Entry/Owned.antt =====
-- One pair with the files that are open on it: its references.
pub mod Closing
pub mod Opening
pub mod Serving
use ghostcom.Base.{
  ℕ, suc, ◌++◌, ◌+◌, ◌≤◌, ◌≡◌, refl, sym, ap, subst, ◌∙◌, arith, Bool, true, false, not, ◌||◌,
}
use ghostcom.Base.{
  ◌⊎◌, inl, inr, Bool-cases, List, [], ◌∷◌, Option, none, some, ◌==◌, if◌then◌else◌,
}
use ghostcom.Word.{add32, sub32}
use ghostcom.Status.{success, device_not_connected, sharing_violation}
use ghostcom.Wdf.{Wdf, Completion, complete}
use ghostcom.Pair.{PortPair}
use ghostcom.Kernel.{one_if}
use ghostcom.Changed.{changed_com_open, changed_com_close}
use ghostcom.Signal.{signal_changed}
use ghostcom.Life.{
  add_ref, release, pair_destroy, com_file_create, com_file_close, comp_file_create,
  comp_file_close,
}
use ghostcom.Session.Calm.{IsCalm, IsCalm-flags, IsKept, identity_of}
use ghostcom.Session.Told.{signal_changed-IsKept}

pub one_if_le : (b : Bool) → one_if b ≤ 1
one_if_le true = omega arith
one_if_le false = omega arith

module _ (wdf : Wdf) where
  open wdf use {Request, Queue}

  -- A pair in memory, with whether a file of either side is open on it: the references are those of
  -- the creation, which an inactive pair has lost, and of the files, one at least; and an active
  -- pair is calm, and knows of its files.
  pub record IsOwned (pp : PortPair Queue) (com_open comp_open : Bool) : Type 0 where
    pub references : pp.ref_count ≡ one_if com_open + one_if comp_open + one_if pp.active
    pub used : 1 ≤ pp.ref_count
    pub ready :
        pp.active ≡ true
        → (pp.com_side_open ≡ one_if com_open)
          × (pp.companion_side_open ≡ one_if comp_open)
          × IsCalm wdf pp

  -- No file is open on memory that is free.
  abbrev pub Held : Option (PortPair Queue) → Bool → Bool → Type 0
  Held none com_open comp_open = (com_open ≡ false) × (comp_open ≡ false)
  Held (some pp) com_open comp_open = IsOwned pp com_open comp_open

  -- What is left of a pair has its number and is as active, or it was inactive before.
  abbrev pub IsTouched : PortPair Queue → Option (PortPair Queue) → Type 0
  IsTouched pp left =
      (pp.active ≡ false)
      ⊎ ((pp' : PortPair Queue) × (left ≡ some pp')
          × (pp'.active ≡ pp.active)
          × (pp'.port_number ≡ pp.port_number))

  pub IsOwned-same :
      {pp : PortPair Queue} {com_open comp_open : Bool} (pp' : PortPair Queue)
      → identity_of wdf pp' ≡ identity_of wdf pp
      → (pp.active ≡ true → IsCalm wdf pp')
      → IsOwned pp com_open comp_open
      → IsOwned pp' com_open comp_open
  IsOwned-same {pp} {com_open} {comp_open} pp' same calm o = record {
    references =
        ap (λ i. i.5) same
        ∙ o.references
        ∙ ap (λ b. one_if com_open + one_if comp_open + one_if b) (sym (ap (λ i. i.2) same));
    used = omega (arith, ap (λ i. i.5) same, o.used);
    ready = λ on.
        let was : pp.active ≡ true = sym (ap (λ i. i.2) same) ∙ on in
        let (com_known, comp_known, _) = o.ready was in
        (ap (λ i. i.3) same ∙ com_known, ap (λ i. i.4) same ∙ comp_known, calm was);
  }

  -- Nothing is done to a pair.
  as_it_is : (pp : PortPair Queue) → IsCalm wdf pp → IsKept wdf pp [] [] (pp, [])
  as_it_is pp calm = record { calm = calm; same = refl; once = λ weight. refl }

  -- The waits for a signal are told.
  pub told_IsKept :
      (pp : PortPair Queue) (bits : ℕ)
      → IsCalm wdf pp
      → IsKept wdf pp [] [] ((signal_changed wdf pp bits).0, (signal_changed wdf pp bits).1)
  told_IsKept pp bits calm = signal_changed-IsKept wdf pp pp [] bits (as_it_is pp calm)

  -- One of the references to a pair goes.
  pub release-Held :
      (pp : PortPair Queue) (com_open comp_open : Bool)
      → pp.ref_count ≡ 1 + (one_if com_open + one_if comp_open + one_if pp.active)
      → (pp.active ≡ true
          → (pp.com_side_open ≡ one_if com_open)
            × (pp.companion_side_open ≡ one_if comp_open)
            × IsCalm wdf pp)
      → Held (release pp) com_open comp_open × IsTouched pp (release pp)
  unfolding release
  release-Held pp com_open comp_open count ready = elim (Bool-cases (sub32 pp.ref_count 1 == 0)) [
    | inl last ↦ rw last (
      (
        none_if com_open (ground (arith, left, last)),
        none_if comp_open (ground (arith, left, last)),
      ),
      inl (none_if pp.active (ground (arith, left, last))),
    )
    | inr more ↦ rw more (
      record {
        references = left;
        used = ground arith;
        ready = λ on.
            let (com_known, comp_known, calm) = ready on in
            (com_known, comp_known, IsCalm-flags wdf _ _ _ _ calm);
      },
      inr (record pp { ref_count = sub32 pp.ref_count 1 }, refl, refl, refl),
    )
  ]
    where
      none_if : (b : Bool) → one_if b ≡ 0 → b ≡ false
      none_if true h = absurd (omega arith)
      none_if false h = refl

      left : sub32 pp.ref_count 1 ≡ one_if com_open + one_if comp_open + one_if pp.active
      left = omega (arith, count, one_if_le com_open, one_if_le comp_open, one_if_le pp.active)

  -- The creation's reference goes.
  pub pair_destroy-Held :
      (pp : PortPair Queue) (com_open comp_open : Bool)
      → pp.active ≡ true
      → IsOwned pp com_open comp_open
      → Held (pair_destroy (record pp { active = false })) com_open comp_open
  unfolding pair_destroy
  pair_destroy-Held pp com_open comp_open on o =
      (release-Held _ com_open comp_open (omega (arith, o.references, ap one_if on))
        (λ h. absurd (cc h))).0

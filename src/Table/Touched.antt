-- ===== src/Table/Touched.antt =====
-- The table when one pair is written that keeps its number, or that no entry points to.
use ghostcom.Base.{ℕ, ◌≡◌, refl, ap, ap₂, subst, sym, ◌∙◌, false, Bool-cases, inl, inr, ◌⊎◌}
use ghostcom.Base.{◌||◌, ◌&&◌, ◌==◌, ==_iff, List, [], ◌∷◌, Option, some, some_injective}
use ghostcom.Pair.{PortPair}
use ghostcom.Table.{Slot, vacant, reserved, pointer, put, is_live, some_live}
use ghostcom.Table.Sound.{points, numbered, IsEntry, IsSound, IsSound-put}

module _ {Queue : Type 0} (heap : ℕ → Option (PortPair Queue)) (p : ℕ) (pp : PortPair Queue)
    (there : heap p ≡ some pp) where
  -- A pair that is not active is in no sound table.
  points_inactive :
      (ports : List Slot) → pp.active ≡ false → IsSound heap ports → points p ports ≡ false
  points_inactive [] off s = refl
  points_inactive (vacant ∷ ports) off s = points_inactive ports off s
  points_inactive (reserved ∷ ports) off s = points_inactive ports off s
  points_inactive (pointer q ∷ ports) off (e, s) = elim (Bool-cases (q == p)) [
    | inr other ↦ rw other (points_inactive ports off s)
    | inl same ↦
        let mine : pp ≡ e.pair =
          some_injective (sym there ∙ ap heap (sym ((==_iff q p).0 same)) ∙ e.there) in
        absurd (cc (ap (λ x. x.active) mine, e.is_active, off))
  ]

  module _ (pp' : PortPair Queue) (active : pp'.active ≡ pp.active)
      (number : pp'.port_number ≡ pp.port_number) where
    is_live-put :
        (n q : ℕ) → is_live (numbered n) (put heap p (some pp') q) ≡ is_live (numbered n) (heap q)
    unfolding is_live
    is_live-put n q = elim (Bool-cases (p == q)) [
      | inr other ↦ rw other refl
      | inl same ↦
          rw (same, sym (ap heap ((==_iff p q).0 same)) ∙ there)
            (ap₂ (λ b m. b && (m == n)) active number)
    ]

    some_live-rewritten :
        (n : ℕ) (ports : List Slot)
        → some_live (numbered n) (put heap p (some pp')) ports ≡ some_live (numbered n) heap ports
    unfolding some_live
    some_live-rewritten n [] = refl
    some_live-rewritten n (vacant ∷ ports) = some_live-rewritten n ports
    some_live-rewritten n (reserved ∷ ports) = some_live-rewritten n ports
    some_live-rewritten n (pointer q ∷ ports) =
        ap₂ ◌||◌ (is_live-put n q) (some_live-rewritten n ports)

    rewritten_IsEntry :
        (q : ℕ) (ports : List Slot) → IsEntry heap q ports → IsEntry (put heap p (some pp')) q ports
    rewritten_IsEntry q ports e = elim (Bool-cases (p == q)) [
      | inr other ↦ record {
        pair = e.pair;
        there = rw other e.there;
        is_active = e.is_active;
        alone = some_live-rewritten e.pair.port_number ports ∙ e.alone;
      }
      | inl same ↦
          let mine : pp ≡ e.pair =
            some_injective (sym there ∙ ap heap ((==_iff p q).0 same) ∙ e.there) in
          record {
            pair = pp';
            there = rw same refl;
            is_active = active ∙ ap (λ x. x.active) mine ∙ e.is_active;
            alone =
                some_live-rewritten pp'.port_number ports
                ∙ ap (λ n. some_live (numbered n) heap ports)
                    (number ∙ ap (λ x. x.port_number) mine)
                ∙ e.alone;
          }
    ]

    rewritten_IsSound :
        (ports : List Slot) → IsSound heap ports → IsSound (put heap p (some pp')) ports
    rewritten_IsSound [] s = s
    rewritten_IsSound (vacant ∷ ports) s = rewritten_IsSound ports s
    rewritten_IsSound (reserved ∷ ports) s = rewritten_IsSound ports s
    rewritten_IsSound (pointer q ∷ ports) (e, s) =
        (rewritten_IsEntry q ports e, rewritten_IsSound ports s)

  pub touched_IsSound :
      (left : Option (PortPair Queue)) (ports : List Slot)
      → (pp.active ≡ false)
        ⊎ ((pp' : PortPair Queue) × (left ≡ some pp')
            × (pp'.active ≡ pp.active)
            × (pp'.port_number ≡ pp.port_number))
      → IsSound heap ports
      → IsSound (put heap p left) ports
  touched_IsSound left ports (inl off) s =
      IsSound-put heap p left ports (points_inactive ports off s) s
  touched_IsSound left ports (inr (pp', e, active, number)) s =
      subst (λ v. IsSound (put heap p v) ports) (sym e)
        (rewritten_IsSound pp' active number ports s)

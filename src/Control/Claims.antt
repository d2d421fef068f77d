-- ===== src/Control/Claims.antt =====
-- The pair that GcomHandleDestroyPort takes out of a sound table.
use ghostcom.Base.{
  some_injective, both_false, ℕ, suc, ◌≡◌, refl, sym, ap, subst, ◌∙◌, arith, inl, inr, Bool, true,
  false, Bool-cases, ◌||◌, ◌==◌, ==_iff, if◌then◌else◌, Option, none, some, List, [], ◌∷◌, length,
}
use ghostcom.Pair.{PortPair}
use ghostcom.Table.{Slot, vacant, reserved, pointer, is_live, some_live}
use ghostcom.Table.Slots.{occupied}
use ghostcom.Table.Sound.{numbered, points, IsEntry, IsSound}
use ghostcom.Control.{claim, live}

one_false : {a b : Bool} → a ≡ false → b ≡ false → (a || b) ≡ false
one_false h h' = rw (h, h') refl

module _ {Queue : Type 0} (index : ℕ) (heap : ℕ → Option (PortPair Queue)) where
  -- What is found: an active pair of the index, no longer in the table, whose other entries stay.
  pub data Claims (ports : List Slot) : Option (ℕ × PortPair Queue) × List Slot → Type 0 where
    missing :
        ((p : ℕ) (pp : PortPair Queue)
          → points p ports ≡ true
          → heap p ≡ some pp
          → (pp.companion_index == index) ≡ false)
        → Claims ports (none, ports)
    claimed :
        {p : ℕ} {pp : PortPair Queue} {rest : List Slot}
        → heap p ≡ some pp
        → pp.active ≡ true
        → pp.companion_index ≡ index
        → points p ports ≡ true
        → points p rest ≡ false
        → length rest ≡ length ports
        → occupied ports ≡ suc (occupied rest)
        → IsSound heap rest
        → ((wanted : PortPair Queue → Bool)
            → some_live wanted heap ports ≡ false
            → some_live wanted heap rest ≡ false)
        → Claims ports (some (p, pp), rest)

  own_number :
      (pp : PortPair Queue) (found : Option (PortPair Queue))
      → found ≡ some pp
      → pp.active ≡ true
      → is_live (numbered pp.port_number) found ≡ false
      → ⊥
  unfolding is_live
  own_number pp found e active h =
      let here : is_live (numbered pp.port_number) (some pp) ≡ false =
        ap (is_live (numbered pp.port_number)) (sym e) ∙ h in
      ground arith

  -- A pointer whose pair's number no entry has is in none.
  pub alone_points :
      (p : ℕ) (pp : PortPair Queue) (ports : List Slot)
      → heap p ≡ some pp
      → pp.active ≡ true
      → some_live (numbered pp.port_number) heap ports ≡ false
      → points p ports ≡ false
  unfolding some_live is_live
  alone_points p pp [] there live h = refl
  alone_points p pp (vacant ∷ ports) there live h = alone_points p pp ports there live h
  alone_points p pp (reserved ∷ ports) there live h = alone_points p pp ports there live h
  alone_points p pp (pointer q ∷ ports) there live h =
      let (here, later) = both_false _ _ h in
      elim (Bool-cases (q == p)) [
        | inl same ↦
            absurd (own_number pp (heap q) (ap heap ((==_iff q p).0 same) ∙ there) live here)
        | inr other ↦ rw other (alone_points p pp ports there live later)
      ]

  named_otherwise :
      {pp other : PortPair Queue}
      → some pp ≡ some other
      → (other.companion_index == index) ≡ false
      → (pp.companion_index == index) ≡ false
  named_otherwise e h =
      ap (λ o. elim o [ none ↦ false | some x ↦ x.companion_index == index ]) e ∙ h

  past_vacant :
      (ports : List Slot) (result : Option (ℕ × PortPair Queue) × List Slot)
      → Claims ports result
      → Claims (vacant ∷ ports) (result.0, vacant ∷ result.1)
  unfolding some_live
  past_vacant ports _ (missing h) = missing h
  past_vacant ports _ (claimed there alive named in_table out long count sound less) =
      claimed there alive named in_table out (ap suc long) count sound less

  past_reserved :
      (ports : List Slot) (result : Option (ℕ × PortPair Queue) × List Slot)
      → Claims ports result
      → Claims (reserved ∷ ports) (result.0, reserved ∷ result.1)
  unfolding some_live
  past_reserved ports _ (missing h) = missing h
  past_reserved ports _ (claimed there alive named in_table out long count sound less) =
      claimed there alive named in_table out (ap suc long) (ap suc count) sound less

  past_pointer :
      (q : ℕ) (ports : List Slot) (result : Option (ℕ × PortPair Queue) × List Slot)
      → (e : IsEntry heap q ports) → (e.pair.companion_index == index) ≡ false
      → Claims ports result
      → Claims (pointer q ∷ ports) (result.0, pointer q ∷ result.1)
  unfolding some_live
  past_pointer q ports _ e other (missing h) = missing (λ p pp found there.
      elim (Bool-cases (q == p)) [
        | inl same ↦
            named_otherwise {pp = pp} {other = (e.pair)}
              (sym there ∙ (sym (ap heap ((==_iff q p).0 same)) ∙ e.there)) other
        | inr apart ↦ h p pp (ground arith) there
      ])
  past_pointer q ports _ e other
        (claimed {p} there alive named in_table out long count sound less) =
      let elsewhere : points q ports ≡ false =
        alone_points q e.pair ports e.there e.is_active e.alone in
      let apart : (q == p) ≡ false = elim (Bool-cases (q == p)) [
        | inl same ↦
            absurd (cc (elsewhere, in_table, ap (λ n. points n ports) ((==_iff q p).0 same)))
        | inr h ↦ h
      ] in
      claimed there alive named (rw apart in_table) (rw apart out) (ap suc long) (ap suc count)
        (
          record {
            pair = e.pair;
            there = e.there;
            is_active = e.is_active;
            alone = less _ e.alone;
          },
          sound,
        )
        (λ wanted h. one_false (both_false _ _ h).0 (less wanted (both_false _ _ h).1))

  live_active : (pp : PortPair Queue) → pp.active ≡ true → live (some pp) ≡ some pp
  unfolding live
  live_active pp active = subst (λ b. (if b then some pp else none) ≡ some pp) (sym active) refl

  at_pointer :
      (p : ℕ) (ports : List Slot) (found : Option (PortPair Queue))
      → (result : Option (ℕ × PortPair Queue) × List Slot) → heap p ≡ found
      → IsEntry heap p ports
      → IsSound heap ports
      → Claims ports result
      → Claims (pointer p ∷ ports) (elim (live found) [
        | none ↦ (result.0, pointer p ∷ result.1)
        | some pp ↦
            if pp.companion_index == index
            then (some (p, pp), vacant ∷ ports)
            else (result.0, pointer p ∷ result.1)
      ])
  unfolding some_live
  at_pointer p ports none result h e s c = absurd (cc (sym h ∙ e.there))
  at_pointer p ports (some pp) result h e s c =
      let same : pp ≡ e.pair = some_injective (sym h ∙ e.there) in
      let active : pp.active ≡ true = ap (λ x. x.active) same ∙ e.is_active in
      let other_pair : Option (ℕ × PortPair Queue) × List Slot = (result.0, pointer p ∷ result.1) in
      let choice : Bool → Option (ℕ × PortPair Queue) × List Slot =
        λ b. if b then (some (p, pp), vacant ∷ ports) else other_pair in
      subst
        (λ o. Claims (pointer p ∷ ports) (elim o [
          | none ↦ other_pair
          | some pp ↦
              if pp.companion_index == index then (some (p, pp), vacant ∷ ports) else other_pair
        ]))
        (sym (live_active pp active))
        (elim (Bool-cases (pp.companion_index == index)) [
          | inl here ↦
              subst (λ b. Claims (pointer p ∷ ports) (choice b)) (sym here)
                (claimed h active ((==_iff _ _).0 here) (rw ((==_iff p p).1 refl) refl)
                  (alone_points p pp ports h active
                    (ap (λ x. some_live (numbered x.port_number) heap ports) same ∙ e.alone))
                  refl refl s (λ wanted free. (both_false _ _ free).1))
          | inr other ↦
              subst (λ b. Claims (pointer p ∷ ports) (choice b)) (sym other)
                (past_pointer p ports result e
                  (ap (λ x. x.companion_index == index) (sym same) ∙ other) c)
        ])

  pub claim-Claims :
      (ports : List Slot) → IsSound heap ports → Claims ports (claim index heap ports)
  unfolding claim
  claim-Claims [] s = missing (λ p pp h _. absurd (cc h))
  claim-Claims (vacant ∷ ports) s = past_vacant ports _ (claim-Claims ports s)
  claim-Claims (reserved ∷ ports) s = past_reserved ports _ (claim-Claims ports s)
  claim-Claims (pointer p ∷ ports) (e, s) =
      at_pointer p ports (heap p) (claim index heap ports) refl e s (claim-Claims ports s)

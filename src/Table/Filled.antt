-- ===== src/Table/Filled.antt =====
-- A new pair in the first free entry of a sound table.
use ghostcom.Base.{
  both_false, ℕ, suc, ◌≡◌, refl, sym, ap, subst, ◌∙◌, arith, Bool, true, false, ◌||◌, ◌==◌, Option,
  none, some, List, [], ◌∷◌,
}
use ghostcom.Pair.{PortPair}
use ghostcom.Table.{Slot, vacant, reserved, pointer, free_slot, set_slot, is_live, some_live}
use ghostcom.Table.Sound.{numbered, IsEntry, IsSound}

abbrev pub number_of : Option ℕ → ℕ
number_of none = 0
number_of (some n) = n

-- The free entry of a longer table.
pub free_later :
    (slots : Option ℕ) (slot : ℕ)
    → (elim slots as (λ _. Option ℕ) [ none ↦ none | some j ↦ some (suc j) ]) ≡ some slot
    → (j : ℕ) × (slots ≡ some j) × (slot ≡ suc j)
free_later none slot h = absurd (cc h)
free_later (some j) slot h = (j, refl, sym (ap number_of h))

==_false_sym : (m n : ℕ) → (m == n) ≡ false → (n == m) ≡ false
==_false_sym m n h = ground arith

module _ {Queue : Type 0} (heap : ℕ → Option (PortPair Queue)) (p : ℕ) (pp : PortPair Queue)
    (there : heap p ≡ some pp) (live : pp.active ≡ true) where
  -- The pairs that are found are those found before, and the new one.
  some_live-set_slot :
      (wanted : PortPair Queue → Bool) (ports : List Slot) (slot : ℕ)
      → free_slot ports ≡ some slot
      → wanted pp ≡ false
      → some_live wanted heap (set_slot slot (pointer p) ports) ≡ some_live wanted heap ports
  unfolding some_live set_slot free_slot is_live
  some_live-set_slot wanted [] slot h other = refl
  some_live-set_slot wanted (vacant ∷ ports) slot h other =
      subst
        (λ i.
          some_live wanted heap (set_slot i (pointer p) (vacant ∷ ports))
          ≡ some_live wanted heap ports)
        (ap number_of h) (rw (there, other, live) refl)
  some_live-set_slot wanted (reserved ∷ ports) slot h other =
      let (j, e, same) = free_later (free_slot ports) slot h in
      rw same (some_live-set_slot wanted ports j e other)
  some_live-set_slot wanted (pointer q ∷ ports) slot h other =
      let (j, e, same) = free_later (free_slot ports) slot h in
      rw same (ap (λ b. is_live wanted (heap q) || b) (some_live-set_slot wanted ports j e other))

  new-IsEntry :
      (ports : List Slot)
      → some_live (numbered pp.port_number) heap ports ≡ false
      → IsEntry heap p ports
  new-IsEntry ports free = record { pair = pp; there = there; is_active = live; alone = free }

  live_number :
      (other : PortPair Queue) (found : Option (PortPair Queue))
      → found ≡ some other
      → other.active ≡ true
      → is_live (numbered pp.port_number) found ≡ false
      → (other.port_number == pp.port_number) ≡ false
  unfolding is_live
  live_number other found e active h =
      let here : is_live (numbered pp.port_number) (some other) ≡ false =
        ap (is_live (numbered pp.port_number)) (sym e) ∙ h in
      ground arith

  -- An entry that is not the first: its number is not that of the new pair.
  old-IsEntry :
      (q : ℕ) (ports : List Slot) (slot : ℕ)
      → free_slot ports ≡ some slot
      → some_live (numbered pp.port_number) heap (pointer q ∷ ports) ≡ false
      → IsEntry heap q ports
      → IsEntry heap q (set_slot slot (pointer p) ports)
  unfolding some_live is_live
  old-IsEntry q ports slot h free e =
      let apart : (e.pair.port_number == pp.port_number) ≡ false =
        live_number e.pair (heap q) e.there e.is_active (both_false _ _ free).0 in
      record {
        pair = e.pair;
        there = e.there;
        is_active = e.is_active;
        alone =
            some_live-set_slot (numbered e.pair.port_number) ports slot h (==_false_sym _ _ apart)
            ∙ e.alone;
      }

  pub IsSound-set_slot :
      (ports : List Slot) (slot : ℕ)
      → free_slot ports ≡ some slot
      → some_live (numbered pp.port_number) heap ports ≡ false
      → IsSound heap ports
      → IsSound heap (set_slot slot (pointer p) ports)
  unfolding some_live set_slot free_slot
  IsSound-set_slot [] slot h free s = s
  IsSound-set_slot (vacant ∷ ports) slot h free s =
      subst (λ i. IsSound heap (set_slot i (pointer p) (vacant ∷ ports))) (ap number_of h)
        (new-IsEntry ports free, s)
  IsSound-set_slot (reserved ∷ ports) slot h free s =
      let (j, e, same) = free_later (free_slot ports) slot h in
      rw same (IsSound-set_slot ports j e free s)
  IsSound-set_slot (pointer q ∷ ports) slot h free (en, s) =
      let (j, e, same) = free_later (free_slot ports) slot h in
      rw same
        (old-IsEntry q ports j e free en, IsSound-set_slot ports j e ((both_false _ _ free).1) s)

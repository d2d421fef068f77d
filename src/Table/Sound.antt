-- ===== src/Table/Sound.antt =====
-- The entries of the table with the pairs that they point to.
use ghostcom.Base.{
  ℕ, ◌≡◌, ◌≢◌, refl, sym, ap, ◌∙◌, arith, inl, inr, Bool, true, false, Bool-cases, ◌||◌, ◌==◌,
  ==_iff, Option, none, some, List, [], ◌∷◌,
}
use ghostcom.Pair.{PortPair}
use ghostcom.Table.{Slot, vacant, reserved, pointer, put, some_live}

pub put-same : {A : Type 0} (heap : ℕ → Option A) (p : ℕ) (v : Option A) → put heap p v p ≡ v
put-same heap p v = rw ((==_iff p p).1 refl) refl

pub put-other :
    {A : Type 0} (heap : ℕ → Option A) (p q : ℕ) (v : Option A) → p ≢ q → put heap p v q ≡ heap q
put-other heap p q v other = elim (Bool-cases (p == q)) [
  | inl same ↦ absurd (other ((==_iff p q).0 same))
  | inr h ↦ rw h refl
]

-- Whether an entry is the pointer.
abbrev pub points : ℕ → List Slot → Bool
points p [] = false
points p (vacant ∷ ports) = points p ports
points p (reserved ∷ ports) = points p ports
points p (pointer q ∷ ports) = q == p || points p ports

module _ {Queue : Type 0} where
  -- The test of a port number.
  abbrev pub numbered : ℕ → PortPair Queue → Bool
  numbered number pp = pp.port_number == number

  -- A pointer leads to an active pair, whose number no later entry has.
  pub record IsEntry (heap : ℕ → Option (PortPair Queue)) (p : ℕ) (ports : List Slot) : Type 0 where
    pub pair : PortPair Queue
    pub there : heap p ≡ some pair
    pub is_active : pair.active ≡ true
    pub alone : some_live (numbered pair.port_number) heap ports ≡ false

  -- All pointers lead to active pairs, of different numbers.
  abbrev pub IsSound : (ℕ → Option (PortPair Queue)) → List Slot → Type 0
  IsSound heap [] = Unit {0}
  IsSound heap (vacant ∷ ports) = IsSound heap ports
  IsSound heap (reserved ∷ ports) = IsSound heap ports
  IsSound heap (pointer p ∷ ports) = IsEntry heap p ports × IsSound heap ports

  pub points_fresh :
      (heap : ℕ → Option (PortPair Queue)) (p : ℕ) (ports : List Slot)
      → heap p ≡ none
      → IsSound heap ports
      → points p ports ≡ false
  points_fresh heap p [] h s = refl
  points_fresh heap p (vacant ∷ ports) h s = points_fresh heap p ports h s
  points_fresh heap p (reserved ∷ ports) h s = points_fresh heap p ports h s
  points_fresh heap p (pointer q ∷ ports) h (e, s) = elim (Bool-cases (q == p)) [
    | inl same ↦ absurd (cc (h, e.there, ap heap ((==_iff q p).0 same)))
    | inr other ↦ rw other (points_fresh heap p ports h s)
  ]

  -- A write through a pointer that no entry has.
  module _ (heap : ℕ → Option (PortPair Queue)) (p : ℕ) (v : Option (PortPair Queue)) where
    not_pointed :
        (q : ℕ) (ports : List Slot)
        → points p (pointer q ∷ ports) ≡ false
        → (put heap p v q ≡ heap q) × (points p ports ≡ false)
    not_pointed q ports h = elim (Bool-cases (q == p)) [
      | inl same ↦ absurd (ground arith)
      | inr other ↦
          (put-other heap p q v (λ e. absurd (cc (other, (==_iff q p).1 (sym e)))), ground arith)
    ]

    pub some_live-put :
        (wanted : PortPair Queue → Bool) (ports : List Slot)
        → points p ports ≡ false
        → some_live wanted (put heap p v) ports ≡ some_live wanted heap ports
    unfolding some_live
    some_live-put wanted [] h = refl
    some_live-put wanted (vacant ∷ ports) h = some_live-put wanted ports h
    some_live-put wanted (reserved ∷ ports) h = some_live-put wanted ports h
    some_live-put wanted (pointer q ∷ ports) h =
        let (same, rest) = not_pointed q ports h in rw (same, some_live-put wanted ports rest) refl

    pub IsSound-put :
        (ports : List Slot)
        → points p ports ≡ false
        → IsSound heap ports
        → IsSound (put heap p v) ports
    IsSound-put [] h s = s
    IsSound-put (vacant ∷ ports) h s = IsSound-put ports h s
    IsSound-put (reserved ∷ ports) h s = IsSound-put ports h s
    IsSound-put (pointer q ∷ ports) h (e, s) =
        let (same, rest) = not_pointed q ports h in
        (
          record {
            pair = e.pair;
            there = same ∙ e.there;
            is_active = e.is_active;
            alone = some_live-put (numbered e.pair.port_number) ports rest ∙ e.alone;
          },
          IsSound-put ports rest s,
        )

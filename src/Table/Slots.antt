-- ===== src/Table/Slots.antt =====
-- The entries of the port table, counted and replaced.
use ghostcom.Base.{
  ℕ, zero, suc, ◌≡◌, refl, ap, sym, subst, ◌∙◌, inl, inr, Option-cases, ◌≢◌, ◌<◌, arith, true,
  false, Option, none, some, List, [], ◌∷◌, length,
}
use ghostcom.Table.{Slot, vacant, reserved, pointer, free_slot, set_slot, is_reserved}

-- The entries that are not NULL.
abbrev pub occupied : List Slot → ℕ
occupied [] = 0
occupied (vacant ∷ ports) = occupied ports
occupied (reserved ∷ ports) = suc (occupied ports)
occupied (pointer p ∷ ports) = suc (occupied ports)

-- Replacing an entry leaves the length.
pub length-set_slot :
    (i : ℕ) (s : Slot) (ports : List Slot) → length (set_slot i s ports) ≡ length ports
unfolding set_slot
length-set_slot i s [] = refl
length-set_slot zero s (t ∷ ports) = refl
length-set_slot (suc i) s (t ∷ ports) = ap suc (length-set_slot i s ports)

pub set_slot-set_slot :
    (i : ℕ) (s s' : Slot) (ports : List Slot)
    → set_slot i s (set_slot i s' ports) ≡ set_slot i s ports
unfolding set_slot
set_slot-set_slot i s s' [] = refl
set_slot-set_slot zero s s' (t ∷ ports) = refl
set_slot-set_slot (suc i) s s' (t ∷ ports) = ap (λ r. t ∷ r) (set_slot-set_slot i s s' ports)

-- The entry that was found free: it is there, and NULL.
pub record IsFree (ports : List Slot) (i : ℕ) : Type 0 where
  pub inside : i < length ports
  pub back : set_slot i vacant ports ≡ ports
  pub filled : (s : Slot) → s ≢ vacant → occupied (set_slot i s ports) ≡ suc (occupied ports)

occupied_one :
    (s : Slot) (ports : List Slot) → s ≢ vacant → occupied (s ∷ ports) ≡ suc (occupied ports)
occupied_one vacant ports h = absurd (h refl)
occupied_one reserved ports h = refl
occupied_one (pointer p) ports h = refl

-- One entry that is not NULL before those that are searched.
later :
    (t : Slot) (ports : List Slot) (i : ℕ)
    → (t ≢ vacant)
    → IsFree ports i
    → IsFree (t ∷ ports) (suc i)
unfolding set_slot
later t ports i taken f = record {
  inside = omega (arith, f.inside);
  back = ap (λ r. t ∷ r) f.back;
  filled = λ s h.
      occupied_one t (set_slot i s ports) taken
      ∙ ap suc (f.filled s h)
      ∙ ap suc (sym (occupied_one t ports taken));
}

found : Option ℕ → ℕ
found none = 0
found (some i) = i

passed :
    (t : Slot) (ports : List Slot) (i : ℕ)
    → t ≢ vacant
    → ((j : ℕ) → free_slot ports ≡ some j → IsFree ports j)
    → (elim (free_slot ports) as (λ _. Option ℕ) [ none ↦ none | some j ↦ some (suc j) ]) ≡ some i
    → IsFree (t ∷ ports) i
passed t ports i taken rest h = elim (Option-cases (free_slot ports)) [
  | inl none_there ↦ cc (h, none_there)
  | inr (j, e) ↦
      let same : suc j ≡ i = cc (h, e) in
      subst (λ k. IsFree (t ∷ ports) k) same (later t ports j taken (rest j e))
]

pub free_slot-IsFree : (ports : List Slot) (i : ℕ) → free_slot ports ≡ some i → IsFree ports i
unfolding free_slot set_slot found
free_slot-IsFree [] i h = cc
free_slot-IsFree (vacant ∷ ports) i h =
    subst (λ k. IsFree (vacant ∷ ports) k) (ap found h)
      (record { inside = omega arith; back = refl; filled = λ s taken. occupied_one s ports taken })
free_slot-IsFree (reserved ∷ ports) i h =
    passed reserved ports i (λ e. cc e) (free_slot-IsFree ports) h
free_slot-IsFree (pointer p ∷ ports) i h =
    passed (pointer p) ports i (λ e. cc e) (free_slot-IsFree ports) h

pub is_reserved-set_slot :
    (i : ℕ) (ports : List Slot)
    → i < length ports
    → is_reserved i (set_slot i reserved ports) ≡ true
unfolding is_reserved set_slot
is_reserved-set_slot i [] h = absurd (omega arith)
is_reserved-set_slot zero (t ∷ ports) h = refl
is_reserved-set_slot (suc i) (t ∷ ports) h = is_reserved-set_slot i ports (omega arith)

pub is_reserved-set_vacant :
    (i : ℕ) (ports : List Slot) → is_reserved i (set_slot i vacant ports) ≡ false
unfolding is_reserved set_slot
is_reserved-set_vacant i [] = refl
is_reserved-set_vacant zero (t ∷ ports) = refl
is_reserved-set_vacant (suc i) (t ∷ ports) = is_reserved-set_vacant i ports

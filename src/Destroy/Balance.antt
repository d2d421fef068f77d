-- ===== src/Destroy/Balance.antt =====
-- A pair that is created and destroyed.
use ghostcom.Base.{
  ℕ, ◌^◌, ◌<◌, ◌≡◌, refl, sym, ap, subst, ◌∙◌, arith, inl, inr, true, false, Bool-cases, ◌==◌,
  ==_iff, Option, none, some, List, [], ◌∷◌,
}
use ghostcom.Status.{Status}
use ghostcom.Kernel.{remove}
use ghostcom.Pair.{PortPair}
use ghostcom.Base.{some_injective}
use ghostcom.Life.{release}
use ghostcom.Com.Device.{announce, com_port_destroy}
use ghostcom.Companion.Device.{companion_destroy}
use ghostcom.Table.{Driver, Slot, vacant, reserved, pointer, put, free_slot, set_slot}
use ghostcom.Table.Sound.{points, points_fresh, IsSound, put-same}
use ghostcom.Table.Filled.{free_later, number_of}
use ghostcom.Create.{PairCalls, port_pair_create}
use ghostcom.Create.Rings.{ready}
use ghostcom.Create.Pairs.{complete_pair}
use ghostcom.Create.Outcome.{IsRestored, filled_in}
use ghostcom.Create.Promise.{Creates, create_failed, create_worked, port_pair_create-Creates}
use ghostcom.Destroy.{DestroyCalls, take_out, withdraw, dismantle, let_go, port_pair_destroy}

-- The new pointer is the one that is taken out.
take_out-set_slot :
    (p : ℕ) (ports : List Slot) (slot : ℕ)
    → free_slot ports ≡ some slot
    → points p ports ≡ false
    → take_out p (set_slot slot (pointer p) ports) ≡ (true, ports)
unfolding take_out set_slot free_slot
take_out-set_slot p [] slot h away = absurd (cc h)
take_out-set_slot p (vacant ∷ ports) slot h away =
    subst (λ i. take_out p (set_slot i (pointer p) (vacant ∷ ports)) ≡ (true, vacant ∷ ports))
      (ap number_of h) (rw ((==_iff p p).1 refl) refl)
take_out-set_slot p (reserved ∷ ports) slot h away =
    let (j, e, same) = free_later (free_slot ports) slot h in
    rw (same, take_out-set_slot p ports j e away) refl
take_out-set_slot p (pointer q ∷ ports) slot h away =
    let (j, e, same) = free_later (free_slot ports) slot h in
    let other : (q == p) ≡ false = ground arith in
    let rest : points p ports ≡ false = ground arith in
    rw (same, other, take_out-set_slot p ports j e rest) refl

put-put :
    {A : Type 0} (heap : ℕ → Option A) (p : ℕ) (v : Option A)
    → heap p ≡ none
    → (q : ℕ) → put (put heap p v) p none q ≡ heap q
put-put heap p v fresh q = elim (Bool-cases (p == q)) [
  | inl same ↦ rw same (sym fresh ∙ ap heap ((==_iff p q).0 same))
  | inr other ↦ rw other refl
]

-- Two that were put in front are gone once both are removed.
remove_both : (a b : ℕ) (l : List ℕ) → remove b (remove a (b ∷ a ∷ l)) ≡ l
remove_both a b l = elim (Bool-cases (b == a)) [
  | inl same ↦ rw (same, (==_iff b a).0 same, (==_iff a a).1 refl) refl
  | inr other ↦ rw (other, (==_iff a a).1 refl, (==_iff b b).1 refl) refl
]

module _ {Queue : Type 0} (calls : PairCalls Queue) (destroying : DestroyCalls) (d : Driver Queue)
    (counts : d.port_count < 2 ^ 32) (sound : IsSound d.heap d.ports) where
  -- The state after a creation that succeeded and the destruction of the pair.
  abbrev destroyed : ℕ → ℕ → ℕ → List ℕ → List ℕ → Driver Queue
  destroyed slot number p first second =
      port_pair_destroy destroying p
        (complete_pair calls number (ready calls number d.kernel first second)).pair
        (filled_in calls slot number d p first second)

  module _ (slot number p : ℕ) (first second : List ℕ) (e : free_slot d.ports ≡ some slot)
      (fresh : d.heap p ≡ none) where
    taken : take_out p (set_slot slot (pointer p) d.ports) ≡ (true, d.ports)
    taken = take_out-set_slot p d.ports slot e (points_fresh d.heap p d.ports fresh sound)

    destroyed-IsRestored : IsRestored d (destroyed slot number p first second)
    unfolding port_pair_destroy let_go dismantle withdraw release com_port_destroy companion_destroy
        announce
    destroyed-IsRestored = record {
      same_ports = rw taken refl;
      same_count = rw taken (omega (arith, counts));
      same_pairs = put-put d.heap p _ fresh;
      same_blocks = omega arith;
      same_locks = omega arith;
    }

    destroyed_devices : (destroyed slot number p first second).kernel.devices ≡ d.kernel.devices
    unfolding port_pair_destroy let_go dismantle withdraw release com_port_destroy companion_destroy
        announce
    destroyed_devices =
        remove_both calls.com_calls.device calls.companion_calls.device d.kernel.devices

  abbrev IsBack : Driver Queue → Type 0
  IsBack d' = IsRestored d d' × (d'.kernel.devices ≡ d.kernel.devices)

  back :
      (requested : ℕ)
      → ((p : ℕ) → calls.pair_memory ≡ some p → d.heap p ≡ none)
      → {result : Status × Option ℕ × Driver Queue} → Creates calls requested d result
      → (p : ℕ) (pp : PortPair Queue) → result.1 ≡ some p
      → result.2.heap p ≡ some pp
      → IsBack (port_pair_destroy destroying p pp result.2)
  back requested fresh (create_failed bad r) p pp given_p there = absurd (cc (given_p))
  back requested fresh (create_worked {slot} {number} {p = q} {first} {second} e c given_q e1 e2) p
        pp given_p there =
      let made : PortPair Queue =
        (complete_pair calls number (ready calls number d.kernel first second)).pair in
      let same : q ≡ p = some_injective given_p in
      let pair : made ≡ pp =
        some_injective
          (sym (put-same d.heap q (some made)) ∙ (ap (put d.heap q (some made)) same ∙ there)) in
      subst
        (λ x.
          IsBack (port_pair_destroy destroying x pp (filled_in calls slot number d q first second)))
        same
        (subst
          (λ x.
            IsBack
              (port_pair_destroy destroying q x (filled_in calls slot number d q first second)))
          pair
          (
            destroyed-IsRestored slot number q first second e (fresh q given_q),
            destroyed_devices slot number q first second e (fresh q given_q),
          ))

  -- GcomPortPairDestroy of a pair that GcomPortPairCreate has just made leaves the table, its
  -- count, the pairs, the numbers of pool blocks and of locks, and the devices as they were
  -- before, where the table was sound, the memory given was free and the count is one of 32
  -- bits.
  pub port_pair_destroy-port_pair_create :
      (requested : ℕ)
      → ((p : ℕ) → calls.pair_memory ≡ some p → d.heap p ≡ none)
      → (p : ℕ) (pp : PortPair Queue) → (port_pair_create calls requested d).1 ≡ some p
      → (port_pair_create calls requested d).2.heap p ≡ some pp
      → (let d' = port_pair_destroy destroying p pp (port_pair_create calls requested d).2 in
          IsRestored d d' × (d'.kernel.devices ≡ d.kernel.devices))
  port_pair_destroy-port_pair_create requested fresh p pp =
      back requested fresh (port_pair_create-Creates calls requested d counts fresh) p pp

-- ===== src/Create/Promise.antt =====
-- How GcomPortPairCreate ends, and that nothing is left of one that fails.
use ghostcom.Base.{
  ℕ, ◌^◌, ◌<◌, ◌≡◌, ◌∙◌, refl, ap, inl, inr, true, false, Bool-cases, Option, none, some, List,
}
use ghostcom.Status.{Status, nt_success, success, insufficient_resources}
use ghostcom.Table.{Driver, free_slot, choose_number}
use ghostcom.Table.Slots.{free_slot-IsFree}
use ghostcom.Create.{PairCalls, port_pair_create, fill_slot, reserve}
use ghostcom.Create.Outcome.{
  IsRestored, Fills, fill_failed, fill_worked, filled_in, fill_slot-Fills,
}

only_success : (st : Status) → nt_success st ≡ true → st ≡ success
only_success success h = refl
only_success _ h = cc

module _ {Queue : Type 0} (calls : PairCalls Queue) (requested : ℕ) (d : Driver Queue) where
  -- How a creation ends: nothing is changed, or the first free slot points to a new pair.
  pub data Creates : Status × Option ℕ × Driver Queue → Type 0 where
    create_failed :
        {st : Status} {d' : Driver Queue}
        → nt_success st ≡ false
        → IsRestored d d'
        → Creates (st, none, d')
    create_worked :
        {slot number p : ℕ} {first second : List ℕ}
        → free_slot d.ports ≡ some slot
        → choose_number calls.com_link calls.comp_link d requested ≡ (success, number)
        → calls.pair_memory ≡ some p
        → calls.first_ring 65536 ≡ some first
        → calls.second_ring 65536 ≡ some second
        → Creates (success, some p, filled_in calls slot number d p first second)

  unchanged : IsRestored d d
  unchanged = record {
    same_ports = refl;
    same_count = refl;
    same_pairs = λ q. refl;
    same_blocks = refl;
    same_locks = refl;
  }

  failed :
      {result : Status × Option ℕ × Driver Queue}
      → nt_success result.0 ≡ false
      → Creates result
      → (result.1 ≡ none) × IsRestored d result.2
  failed h (create_failed bad r) = (refl, r)
  failed h (create_worked e c given_p e1 e2) = absurd (cc h)

  module _ (counts : d.port_count < 2 ^ 32)
      (fresh : (p : ℕ) → calls.pair_memory ≡ some p → d.heap p ≡ none) where
    from_fill :
        {slot number : ℕ}
        → {result : Status × Option ℕ × Driver Queue} → free_slot d.ports ≡ some slot
        → choose_number calls.com_link calls.comp_link d requested ≡ (success, number)
        → Fills calls slot number d result
        → Creates result
    from_fill e c (fill_failed bad r) = create_failed bad r
    from_fill e c (fill_worked given_p e1 e2) = create_worked e c given_p e1 e2

    from_slot :
        (slot : ℕ)
        → free_slot d.ports ≡ some slot
        → (chosen : Status × ℕ) → choose_number calls.com_link calls.comp_link d requested ≡ chosen
        → Creates (elim (nt_success chosen.0) [
          | false ↦ (chosen.0, none, d)
          | true ↦ fill_slot calls slot chosen.1 (reserve slot d)
        ])
    from_slot slot e (st, number) c = elim (Bool-cases (nt_success st)) [
      | inl good ↦
          let chosen : choose_number calls.com_link calls.comp_link d requested
              ≡ (success, number) =
            c ∙ ap (λ x. (x, number)) (only_success st good) in
          rw good (
            from_fill e chosen
              (fill_slot-Fills calls slot number d (free_slot-IsFree d.ports slot e) counts fresh))
      | inr bad ↦ rw bad (create_failed bad unchanged)
    ]

    pub port_pair_create-Creates : Creates (port_pair_create calls requested d)
    unfolding port_pair_create
    port_pair_create-Creates = go (free_slot d.ports) refl
      where
        go :
            (slot : Option ℕ)
            → free_slot d.ports ≡ slot
            → Creates (elim slot [
              | none ↦ (insufficient_resources, none, d)
              | some slot ↦
                  let (st, number) = choose_number calls.com_link calls.comp_link d requested in
                  elim (nt_success st) [
                    | false ↦ (st, none, d)
                    | true ↦ fill_slot calls slot number (reserve slot d)
                  ]
            ])
        go none e = create_failed refl unchanged
        go (some slot) e =
            from_slot slot e (choose_number calls.com_link calls.comp_link d requested) refl

    -- A GcomPortPairCreate that fails, at whatever call, gives no pair and leaves the
    -- table, its count, the pairs, and the numbers of pool blocks and of locks as they
    -- were, where the memory given was free and the count is one of 32 bits.
    pub port_pair_create-IsRestored :
        nt_success (port_pair_create calls requested d).0 ≡ false
        → ((port_pair_create calls requested d).1 ≡ none)
          × IsRestored d (port_pair_create calls requested d).2
    port_pair_create-IsRestored bad = failed bad port_pair_create-Creates

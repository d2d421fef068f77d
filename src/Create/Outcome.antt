-- ===== src/Create/Outcome.antt =====
-- How GcomPortPairCreate ends: what is left of the driver's state after a failure and after a success.
use ghostcom.Base.{
  ℕ, ◌+◌, ◌^◌, ◌<◌, ◌≡◌, refl, sym, subst, ap, ◌∙◌, arith, inl, inr, true, false, Bool-cases,
  Option, none, some, List, ◌==◌, ==_iff,
}
use ghostcom.Word.{add32, sub32}
use ghostcom.Status.{Status, nt_success, success, insufficient_resources}
use ghostcom.Kernel.{Making}
use ghostcom.Table.{Driver, vacant, reserved, pointer, set_slot, put}
use ghostcom.Table.Slots.{IsFree, set_slot-set_slot, is_reserved-set_slot, is_reserved-set_vacant}
use ghostcom.Create.{
  PairCalls, make_devices, initialise, reserve, give_back, free_parts, fail_alloc, publish,
  start_pair, fill_slot,
}
use ghostcom.Create.Devices.{ledger}
use ghostcom.Create.Rings.{
  IsBalanced, started, ready, Starts, start_failed, start_worked, initialise-Starts,
}
use ghostcom.Create.Pairs.{complete_pair, Devices, make_devices-Devices}

count_back : (c : ℕ) → c < 2 ^ 32 → sub32 (add32 c 1) 1 ≡ c
count_back c h = omega arith

put_back :
    {A : Type 0} (heap : ℕ → Option A) (p : ℕ)
    → heap p ≡ none
    → (q : ℕ) → put heap p none q ≡ heap q
put_back heap p fresh q = elim (Bool-cases (p == q)) [
  | inl same ↦ rw same (sym fresh ∙ ap heap ((==_iff p q).0 same))
  | inr other ↦ rw other refl
]

-- The state is as before, as far as a failed creation is to leave it.
pub record IsRestored {Queue : Type 0} (d d' : Driver Queue) : Type 0 where
  pub same_ports : d'.ports ≡ d.ports
  pub same_count : d'.port_count ≡ d.port_count
  pub same_pairs : (q : ℕ) → d'.heap q ≡ d.heap q
  pub same_blocks : d'.kernel.blocks ≡ d.kernel.blocks
  pub same_locks : d'.kernel.locks ≡ d.kernel.locks

module _ {Queue : Type 0} (calls : PairCalls Queue) (slot number : ℕ) (d : Driver Queue) where
  -- The state with the new pair.
  abbrev pub filled_in : ℕ → List ℕ → List ℕ → Driver Queue
  filled_in p first second =
      let s : Making Queue =
        complete_pair calls number (ready calls number d.kernel first second) in
      record d {
        ports = set_slot slot (pointer p) d.ports;
        port_count = add32 d.port_count 1;
        heap = put d.heap p (some s.pair);
        kernel = s.kernel;
      }

  pub data Fills : Status × Option ℕ × Driver Queue → Type 0 where
    fill_failed :
        {st : Status} {d' : Driver Queue}
        → nt_success st ≡ false
        → IsRestored d d'
        → Fills (st, none, d')
    fill_worked :
        {p : ℕ} {first second : List ℕ}
        → calls.pair_memory ≡ some p
        → calls.first_ring 65536 ≡ some first
        → calls.second_ring 65536 ≡ some second
        → Fills (success, some p, filled_in p first second)

module _ {Queue : Type 0} (calls : PairCalls Queue) (slot number : ℕ) (d : Driver Queue)
    (f : IsFree d.ports slot) (counts : d.port_count < 2 ^ 32)
    (fresh : (p : ℕ) → calls.pair_memory ≡ some p → d.heap p ≡ none) where
  unreserved : set_slot slot vacant (set_slot slot reserved d.ports) ≡ d.ports
  unreserved = set_slot-set_slot slot vacant reserved d.ports ∙ f.back

  unpublished :
      (p : ℕ)
      → set_slot slot vacant (set_slot slot (pointer p) (set_slot slot reserved d.ports)) ≡ d.ports
  unpublished p =
      set_slot-set_slot slot vacant (pointer p) (set_slot slot reserved d.ports) ∙ unreserved

  module _ (p : ℕ) (given_p : calls.pair_memory ≡ some p) (s : Making Queue)
      (b : IsBalanced (d.kernel.blocks + 1) d.kernel.locks (ledger s)) where
    freed_blocks : (free_parts s).blocks ≡ d.kernel.blocks
    freed_blocks = omega (arith, b.blocks_held)

    freed_locks : (free_parts s).locks ≡ d.kernel.locks
    freed_locks = omega (arith, b.locks_held)

    fail_before : IsRestored d (fail_alloc slot p s (reserve slot d))
    unfolding fail_alloc reserve give_back
    fail_before = rw (is_reserved-set_slot slot d.ports f.inside) (record {
      same_ports = unreserved;
      same_count = count_back d.port_count counts;
      same_pairs = put_back d.heap p (fresh p given_p);
      same_blocks = freed_blocks;
      same_locks = freed_locks;
    })

    fail_after : IsRestored d (
        fail_alloc slot p s (
          give_back slot
            (record (reserve slot d) { ports = set_slot slot (pointer p) (reserve slot d).ports })))
    unfolding fail_alloc reserve give_back
    fail_after =
        rw
          (is_reserved-set_vacant slot (set_slot slot (pointer p) (set_slot slot reserved d.ports)))
          (record {
            same_ports = unpublished p;
            same_count = count_back d.port_count counts;
            same_pairs = put_back d.heap p (fresh p given_p);
            same_blocks = freed_blocks;
            same_locks = freed_locks;
          })

  -- The state once a pair with its devices is in the table.
  abbrev published : ℕ → Making Queue → Driver Queue
  published p made = record (reserve slot d) {
    ports = set_slot slot (pointer p) (reserve slot d).ports;
    heap = put d.heap p (some made.pair);
    kernel = made.kernel;
  }

  module _ (p : ℕ) (given_p : calls.pair_memory ≡ some p) (first second : List ℕ)
      (e1 : calls.first_ring 65536 ≡ some first) (e2 : calls.second_ring 65536 ≡ some second) where
    abbrev in_rings : Making Queue
    in_rings = ready calls number d.kernel first second

    published-Fills :
        Fills calls slot number d
          (success, some p, published p (complete_pair calls number in_rings))
    unfolding reserve
    published-Fills =
        subst
          (λ ports. Fills calls slot number d (
            success,
            some p,
            record (filled_in calls slot number d p first second) { ports = ports },
          ))
          (sym (set_slot-set_slot slot (pointer p) reserved d.ports)) (fill_worked given_p e1 e2)

    -- The end of the devices is the end of the creation.
    from_Devices :
        (result : Status × Making Queue)
        → Devices calls number (d.kernel.blocks + 1) d.kernel.locks in_rings result
        → Fills calls slot number d (elim (nt_success result.0) [
          | false ↦ (
            result.0,
            none,
            fail_alloc slot p result.1 (
                give_back slot (record (reserve slot d) {
                  ports = set_slot slot (pointer p) (reserve slot d).ports;
                })),
          )
          | true ↦ (result.0, some p, published p result.1)
        ])
    from_Devices (st, made) (inl (bad, b)) = rw bad (fill_failed bad (fail_after p given_p made b))
    from_Devices (st, made) (inr (good, e)) = rw (ap nt_success good) (
        subst (λ m. Fills calls slot number d (st, some p, published p m)) (sym e)
          (subst
            (λ x.
              Fills calls slot number d
                (x, some p, published p (complete_pair calls number in_rings)))
            (sym good) published-Fills))

    publish-Fills :
        Fills calls slot number d (publish calls slot number p in_rings (reserve slot d))
    unfolding publish reserve
    publish-Fills = from_Devices (make_devices calls number in_rings) (
        make_devices-Devices calls number (d.kernel.blocks + 1) d.kernel.locks in_rings (record {
          no_com_link = refl;
          no_comp_link = refl;
          blocks_held = omega arith;
          locks_held = omega arith;
        }))

  from_start :
      (p : ℕ)
      → calls.pair_memory ≡ some p
      → (result : Status × Making Queue) → Starts calls number d.kernel result
      → Fills calls slot number d (elim (nt_success result.0) [
        | false ↦ (result.0, none, fail_alloc slot p result.1 (reserve slot d))
        | true ↦ publish calls slot number p result.1 (reserve slot d)
      ])
  from_start p e (st, s) (start_failed bad b) = rw bad (fill_failed bad (fail_before p e s b))
  from_start p e (st, s) (start_worked {first} {second} e1 e2) =
      publish-Fills p e first second e1 e2

  start_pair-Fills :
      (p : ℕ)
      → calls.pair_memory ≡ some p
      → Fills calls slot number d (start_pair calls slot number p (reserve slot d))
  unfolding start_pair reserve
  start_pair-Fills p e =
      from_start p e (initialise calls (started calls number d.kernel))
        (initialise-Starts calls number d.kernel)

  no_memory :
      Fills calls slot number d (insufficient_resources, none, give_back slot (reserve slot d))
  unfolding reserve give_back
  no_memory = fill_failed refl (record {
    same_ports = unreserved;
    same_count = count_back d.port_count counts;
    same_pairs = λ q. refl;
    same_blocks = refl;
    same_locks = refl;
  })

  pub fill_slot-Fills : Fills calls slot number d (fill_slot calls slot number (reserve slot d))
  unfolding fill_slot
  fill_slot-Fills = go calls.pair_memory refl
    where
      go :
          (memory : Option ℕ)
          → calls.pair_memory ≡ memory
          → Fills calls slot number d (elim memory [
            | none ↦ (insufficient_resources, none, give_back slot (reserve slot d))
            | some p ↦ start_pair calls slot number p (reserve slot d)
          ])
      go none e = no_memory
      go (some p) e = start_pair-Fills p e

-- ===== src/Create/Rings.antt =====
-- The start of a pair: its rings and its locks, and what it owns in between.
use ghostcom.Base.{
  ℕ, ◌+◌, ◌≡◌, refl, sym, subst, ◌∙◌, ap, arith, inl, inr, true, false, Option, none, some,
  Option-cases, List,
}
use ghostcom.Status.{Status, nt_success, success, insufficient_resources}
use ghostcom.Attempt.{go_on, call-then}
use ghostcom.Ring.{Ring, init}
use ghostcom.Kernel.{Kernel, Making, ring_blocks, one_if}
use ghostcom.Pair.New.{no_ring, no_timeouts, new_pair}
use ghostcom.Create.{PairCalls, ring_size, initialise, first_ring_init, second_ring_init}
use ghostcom.Create.Devices.{Ledger, ledger}

-- A pair under construction, or one that failed, without symbolic links: the blocks and locks over
-- those that were there before are the ones that it points to.
pub record IsBalanced (blocks locks : ℕ) (l : Ledger) : Type 0 where
  pub no_com_link : l.com_link ≡ false
  pub no_comp_link : l.comp_link ≡ false
  pub blocks_held : l.blocks ≡ blocks + ring_blocks l.first_ring + ring_blocks l.second_ring
  pub locks_held : l.locks ≡ locks + one_if l.signal_lock + one_if l.data_lock

owned :
    {blocks locks : ℕ} {l : Ledger}
    → l.com_link ≡ false
    → l.comp_link ≡ false
    → l.blocks ≡ blocks + ring_blocks l.first_ring + ring_blocks l.second_ring
    → l.locks ≡ locks + one_if l.signal_lock + one_if l.data_lock
    → IsBalanced blocks locks l
owned h h' e e' = record { no_com_link = h; no_comp_link = h'; blocks_held = e; locks_held = e' }

-- The ring that GcomRingInit makes of a block.
abbrev pub new_ring : List ℕ → Ring
new_ring block = record { buffer = block; size = 65536; mask = 65535; write_pos = 0; read_pos = 0 }

module _ (allocate : ℕ → Option (List ℕ)) where
  init-none :
      allocate 65536 ≡ none → init allocate no_ring ring_size ≡ (insufficient_resources, no_ring)
  unfolding init
  init-none e = rw (e, init) refl

  init-some :
      (block : List ℕ)
      → allocate 65536 ≡ some block
      → init allocate no_ring ring_size ≡ (success, new_ring block)
  unfolding init
  init-some block e = rw (e, init) refl

-- A pair with a ring.
abbrev pub with_first : {Queue : Type 0} → Ring → Making Queue → Making Queue
with_first ring s = record {
  pair = record (s.pair) { com_to_companion = ring };
  kernel = record (s.kernel) { blocks = s.kernel.blocks + ring_blocks ring };
}

abbrev pub with_second : {Queue : Type 0} → Ring → Making Queue → Making Queue
with_second ring s = record {
  pair = record (s.pair) { companion_to_com = ring };
  kernel = record (s.kernel) { blocks = s.kernel.blocks + ring_blocks ring };
}

module _ {Queue : Type 0} (P : Status × Making Queue → Type 0) (allocate : ℕ → Option (List ℕ))
    (rest : Making Queue → Status × Making Queue) (s : Making Queue) where
  pub first-then :
      s.pair.com_to_companion ≡ no_ring
      → (allocate 65536 ≡ none → P (insufficient_resources, with_first no_ring s))
      → ((block : List ℕ) → allocate 65536 ≡ some block → P (rest (with_first (new_ring block) s)))
      → P (go_on rest (first_ring_init allocate s))
  unfolding go_on first_ring_init
  first-then h failed worked = elim (Option-cases (allocate 65536)) [
    | inl e ↦
        subst (λ x. P (go_on rest (x.0, with_first x.1 s)))
          (sym (ap (λ ring. init allocate ring ring_size) h ∙ init-none allocate e)) (failed e)
    | inr (block, e) ↦
        subst (λ x. P (go_on rest (x.0, with_first x.1 s)))
          (sym (ap (λ ring. init allocate ring ring_size) h ∙ init-some allocate block e))
          (worked block e)
  ]

  pub second-then :
      s.pair.companion_to_com ≡ no_ring
      → (allocate 65536 ≡ none → P (insufficient_resources, with_second no_ring s))
      → ((block : List ℕ) → allocate 65536 ≡ some block → P (rest (with_second (new_ring block) s)))
      → P (go_on rest (second_ring_init allocate s))
  unfolding go_on second_ring_init
  second-then h failed worked = elim (Option-cases (allocate 65536)) [
    | inl e ↦
        subst (λ x. P (go_on rest (x.0, with_second x.1 s)))
          (sym (ap (λ ring. init allocate ring ring_size) h ∙ init-none allocate e)) (failed e)
    | inr (block, e) ↦
        subst (λ x. P (go_on rest (x.0, with_second x.1 s)))
          (sym (ap (λ ring. init allocate ring ring_size) h ∙ init-some allocate block e))
          (worked block e)
  ]

module _ {Queue : Type 0} (calls : PairCalls Queue) (number : ℕ) (k : Kernel) where
  -- What the construction starts from, once the pair is allocated.
  abbrev pub started : Making Queue
  started = record { pair = new_pair number; kernel = record k { blocks = k.blocks + 1 } }

  -- The pair with its rings, its locks and the defaults.
  abbrev pub ready : List ℕ → List ℕ → Making Queue
  ready first second =
      let s : Making Queue = with_second (new_ring second) (with_first (new_ring first) started) in
      record {
        pair = record (s.pair) {
          signal_lock = true;
          data_lock = true;
          signal_state = record (s.pair.signal_state) {
            baud_rate = 9600;
            data_bits = 8;
            stop_bits = 0;
            parity = 0;
          };
          comp_dtr = true;
          comp_rts = true;
          timeouts = no_timeouts;
        };
        kernel = record (s.kernel) { locks = s.kernel.locks + 1 + 1 };
      }

  -- How the start ends: with a failure that leaves nothing unaccounted, or with a pair that is ready.
  pub data Starts : Status × Making Queue → Type 0 where
    start_failed :
        {st : Status} {s : Making Queue}
        → nt_success st ≡ false
        → IsBalanced (k.blocks + 1) k.locks (ledger s)
        → Starts (st, s)
    start_worked :
        {first second : List ℕ}
        → calls.first_ring 65536 ≡ some first
        → calls.second_ring 65536 ≡ some second
        → Starts (success, ready first second)

  pub initialise-Starts : Starts (initialise calls started)
  unfolding initialise
  initialise-Starts =
      first-then Starts calls.first_ring _ started refl
        (λ _. start_failed refl (owned refl refl (omega arith) (omega arith)))
        (λ first e.
          second-then Starts calls.second_ring _ _ refl
            (λ _. start_failed refl (owned refl refl (omega arith) (omega arith)))
            (λ second e'.
              call-then Starts calls.signal_lock _ _ _ _
                (λ bad. start_failed bad (owned refl refl (omega arith) (omega arith)))
                (λ _.
                  call-then Starts calls.data_lock _ _ _ _
                    (λ bad. start_failed bad (owned refl refl (omega arith) (omega arith)))
                    (λ _. start_worked e e'))))

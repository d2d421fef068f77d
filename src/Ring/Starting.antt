-- ===== src/Ring/Starting.antt =====
-- Which sizes GcomRingInit accepts, and the ring that it makes.
use native.Mathlib.Decide.{dec_lt}
use native.Mathlib.Nat.{pow-le-pow_right}
use ghostcom.Base.{ℕ, ◌-◌, ◌^◌, ◌≤◌, ◌<◌, ◌≡◌, ◌↔◌, refl, sym, ap, ◌∙◌, arith, bit_and}
use ghostcom.Base.{Option, some, List, [], length, Bool, true, not, ◌||◌, ◌==◌}
use ghostcom.Base.{Option-cases, inl, inr}
use ghostcom.Bits.{two_pow_of_bit_and-pred, bit_and-pred_of_two_pow, two_pow_pos}
use ghostcom.Word.{sub32}
use ghostcom.Status.{success}
use ghostcom.Ring.{Ring, init}
use ghostcom.Ring.Inv.{IsValid}
use ghostcom.Ring.Contents.{contents}

-- The test of GcomRingInit.
abbrev accepts : ℕ → Bool
accepts size = not (size == 0 || not (bit_and size (sub32 size 1) == 0))

sub32-one : (size : ℕ) → 0 < size → size ≤ 2 ^ 31 → sub32 size 1 ≡ size - 1
sub32-one size h b = omega arith

accepts-two_pow : (size : ℕ) → size ≤ 2 ^ 31 → accepts size ≡ true → (k : ℕ) × (size ≡ 2 ^ k)
accepts-two_pow size b h =
    let pos : 0 < size = ground arith in
    two_pow_of_bit_and-pred size pos (ap (bit_and size) (sym (sub32-one size pos b)) ∙ ground arith)

two_pow-accepts : (size k : ℕ) → size ≤ 2 ^ 31 → size ≡ 2 ^ k → accepts size ≡ true
two_pow-accepts size k b e =
    let pos : 0 < size = omega (arith, two_pow_pos k) in
    let clear : bit_and size (sub32 size 1) ≡ 0 =
      ap (bit_and size) (sub32-one size pos b) ∙ rw e (bit_and-pred_of_two_pow k) in
    ground arith

two_pow_mono : (j k : ℕ) → j ≤ k → 2 ^ j ≤ 2 ^ k
two_pow_mono j k h = pow-le-pow_right (omega arith) h

exponent_small : (k : ℕ) → 2 ^ k ≤ 2 ^ 31 → k ≤ 31
exponent_small k h = elim (dec_lt k 32) [
  | yes lt ↦ omega arith
  | no ge ↦ absurd (omega (arith, two_pow_mono 32 k (omega arith)))
]

module _ (allocate : ℕ → Option (List ℕ)) (ring : Ring) (size : ℕ) (b : size ≤ 2 ^ 31) where
  accepted : (init allocate ring size).0 ≡ success → accepts size ≡ true
  unfolding init
  accepted h = ground arith

  has_block :
      (init allocate ring size).0 ≡ success → (block : List ℕ) × (allocate size ≡ some block)
  unfolding init
  has_block h = elim (Option-cases (allocate size)) [
    | inl e ↦ absurd (ground arith)
    | inr found ↦ found
  ]

  init_eq :
      (block : List ℕ)
      → accepts size ≡ true
      → allocate size ≡ some block
      → init allocate ring size ≡ (
        success,
        record { buffer = block; size = size; mask = size - 1; write_pos = 0; read_pos = 0 },
      )
  unfolding init
  init_eq block h e = ground arith

  -- For sizes of up to 2 ^ 31 GcomRingInit succeeds exactly at the powers of two for which
  -- there is memory.
  pub init-success_iff :
      ((init allocate ring size).0 ≡ success)
      ↔ (((k : ℕ) × (size ≡ 2 ^ k)) × ((block : List ℕ) × (allocate size ≡ some block)))
  init-success_iff = (
    λ h. (accepts-two_pow size b (accepted h), has_block h),
    λ h. ap (λ p. p.0) (init_eq h.1.0 (two_pow-accepts size h.0.0 b h.0.1) h.1.1),
  )

  -- For sizes of up to 2 ^ 31, and memory whose blocks are as long as was asked for, the ring
  -- is valid and empty after a success, and has the size asked for.
  pub init-IsValid :
      ((block : List ℕ) → allocate size ≡ some block → length block ≡ size)
      → (init allocate ring size).0 ≡ success
      → IsValid (init allocate ring size).1
        × ((init allocate ring size).1.size ≡ size)
        × (contents (init allocate ring size).1 ≡ [])
  init-IsValid allocated ok =
      let (block, e) = has_block ok in
      let (k, power) = accepts-two_pow size b (accepted ok) in
      rw (init_eq block (accepted ok) e) (
        record {
          exponent = k;
          small = exponent_small k (omega arith);
          power = power;
          masks = refl;
          storage = allocated block e;
          write_in = omega (arith, two_pow_pos k);
          read_in = omega (arith, two_pow_pos k);
        },
        refl,
        refl,
      )

-- ===== src/Bits.antt =====
-- Laws of `&` and `|` at variables, from the digit recursions that the native operations stand for.
mod Step
use Step.{bit_and_step, bit_or_step}
use mathlib.Core.WellFounded as Wf
use mathlib.Core.WellFounded.{Acc, WellFounded}
use native.Mathlib.Nat.{pow-suc, one-le-pow, mod-lt, div-add-mod', mod_self}
use Prim.Native.Nat.{bit_and-bitwise}
use ghostcom.Base.{ℕ, zero, suc, ◌+◌, ◌-◌, ◌*◌, ◌/◌, ◌%◌, ◌^◌, ◌≤◌, ◌<◌, bit_and, bit_or}
use native.Mathlib.Decide.{dec_lt}
use ghostcom.Base.{◌≡◌, refl, ap, sym, ◌∙◌, ◌↔◌, arith}

below-Acc : (k n : ℕ) → n < k → Acc ◌<◌ n
below-Acc zero n h = elim h [ ]
below-Acc (suc k) n h = Acc.intro n (λ m hm. below-Acc k m (omega arith))

lt_wf : WellFounded ◌<◌
lt_wf = record { apply = λ n. below-Acc (suc n) n (omega arith) }

-- Induction from `a / 2` to `a`.
halving {ℓ} : (P : ℕ → Type ℓ) → P 0 → ((a : ℕ) → P (suc a / 2) → P (suc a)) → (a : ℕ) → P a
halving P base next a = Wf.induction lt_wf {C = P} a step
  where
    step : (n : ℕ) → ((m : ℕ) → m < n → P m) → P n
    step zero ih = base
    step (suc n) ih = next n (ih (suc n / 2) (omega arith))

pub two_pow_suc : (k : ℕ) → 2 ^ suc k ≡ 2 ^ k + 2 ^ k
two_pow_suc k = omega (arith, pow-suc 2 k)

pub two_pow_pos : (k : ℕ) → 0 < 2 ^ k
two_pow_pos k = omega (arith, one-le-pow k 2)

pub bit_and-zero : (a : ℕ) → bit_and a 0 ≡ 0
bit_and-zero = halving (λ a. bit_and a 0 ≡ 0) refl λ a ih. omega (arith, bit_and_step (suc a) 0, ih)

-- `a` is `q` blocks of `p` and a remainder.
pub mod_block : (p q r : ℕ) → r < p → (q * p + r) % p ≡ r
mod_block p q r h = grind arith

mod_double : (p a : ℕ) → 0 < p → a % (p + p) ≡ ((a / 2) % p) * 2 + a % 2
mod_double p a h =
    ap (λ t. t % (p + p)) blocks
    ∙ mod_block (p + p) (a / 2 / p) (a / 2 % p * 2 + a % 2) (omega (arith, mod-lt (a / 2) h))
  where
    blocks : a ≡ a / 2 / p * (p + p) + (a / 2 % p * 2 + a % 2)
    blocks = omega (arith, div-add-mod' (a / 2) p)

-- A mask of `k` low ones is the remainder by `2 ^ k`.
pub bit_and_mask : (k a : ℕ) → bit_and a (2 ^ k - 1) ≡ a % 2 ^ k
bit_and_mask zero a = bit_and-zero a ∙ omega arith
bit_and_mask (suc k) a = omega (
  arith,
  bit_and_step a (2 ^ suc k - 1),
  ap (bit_and (a / 2)) halved,
  bit_and_mask k (a / 2),
  mod_double (2 ^ k) a (two_pow_pos k),
  ap (λ p. a % p) (two_pow_suc k),
  two_pow_suc k,
  two_pow_pos k,
)
  where
    halved : (2 ^ suc k - 1) / 2 ≡ 2 ^ k - 1
    halved = omega (arith, two_pow_suc k, two_pow_pos k)

-- A number has no digit in common with its complement on `k` digits.
pub bit_and-complement : (k m : ℕ) → m < 2 ^ k → bit_and m (2 ^ k - 1 - m) ≡ 0
bit_and-complement zero m h = let e : m ≡ 0 = omega arith in rw e
bit_and-complement (suc k) m h = omega (
  arith,
  bit_and_step m (2 ^ suc k - 1 - m),
  ap (bit_and (m / 2)) halved,
  bit_and-complement k (m / 2) (omega (arith, two_pow_suc k)),
  two_pow_suc k,
)
  where
    halved : (2 ^ suc k - 1 - m) / 2 ≡ 2 ^ k - 1 - m / 2
    halved = omega (arith, two_pow_suc k)

bit_and_self : (a : ℕ) → bit_and a a ≡ a
bit_and_self =
    halving (λ a. bit_and a a ≡ a) refl λ a ih. omega (arith, bit_and_step (suc a) (suc a), ih)

-- What `|` sets, `&` finds.
pub bit_and-bit_or : (a b : ℕ) → bit_and (bit_or a b) b ≡ b
bit_and-bit_or a b =
    halving (λ b. (a : ℕ) → bit_and (bit_or a b) b ≡ b) (λ a. bit_and-zero (bit_or a 0))
      (λ b ih a. omega (
        arith,
        bit_and_step (bit_or a (suc b)) (suc b),
        bit_or_step a (suc b),
        ap (λ t. bit_and t (suc b / 2)) (halved a b),
        ih (a / 2),
      ))
      b a
  where
    halved : (a b : ℕ) → bit_or a (suc b) / 2 ≡ bit_or (a / 2) (suc b / 2)
    halved a b = omega (arith, bit_or_step a (suc b))

pub bit_or-lt : (k a b : ℕ) → a < 2 ^ k → b < 2 ^ k → bit_or a b < 2 ^ k
bit_or-lt zero a b ha hb =
    let p : a ≡ 0 = omega arith in let q : b ≡ 0 = omega arith in rw (p, q) (omega arith)
bit_or-lt (suc k) a b ha hb = omega (
  arith,
  bit_or_step a b,
  bit_or-lt k (a / 2) (b / 2) (omega (arith, two_pow_suc k)) (omega (arith, two_pow_suc k)),
  two_pow_suc k,
)

pub bit_and-le : (a b : ℕ) → bit_and a b ≤ b
bit_and-le =
    halving (λ a. (b : ℕ) → bit_and a b ≤ b) (λ b. omega (arith, bit_and-bitwise 0 b))
      λ a ih b. omega (arith, bit_and_step (suc a) b, ih (b / 2))

-- `n & (n - 1)` is 0, for `0 < n`, exactly at the powers of two.
pub two_pow_of_bit_and-pred : (n : ℕ) → 0 < n → bit_and n (n - 1) ≡ 0 → (k : ℕ) × (n ≡ 2 ^ k)
two_pow_of_bit_and-pred =
    halving (λ n. 0 < n → bit_and n (n - 1) ≡ 0 → (k : ℕ) × (n ≡ 2 ^ k))
      (λ h e. absurd (omega arith))
      λ a ih h e. elim (dec_lt 0 (suc a % 2)) [
        | yes odd ↦ (0, one a e odd)
        | no even ↦ double a even (ih (omega arith) (half a e even))
      ]
  where
    one : (a : ℕ) → bit_and (suc a) (suc a - 1) ≡ 0 → 0 < suc a % 2 → suc a ≡ 1
    one a e odd =
        let same : (suc a - 1) / 2 ≡ suc a / 2 = omega arith in
        omega (
          arith,
          bit_and_step (suc a) (suc a - 1),
          ap (bit_and (suc a / 2)) same,
          bit_and_self (suc a / 2),
        )

    half :
        (a : ℕ)
        → bit_and (suc a) (suc a - 1) ≡ 0
        → ¬ (0 < suc a % 2)
        → bit_and (suc a / 2) (suc a / 2 - 1) ≡ 0
    half a e even =
        let below : (suc a - 1) / 2 ≡ suc a / 2 - 1 = omega arith in
        omega (arith, bit_and_step (suc a) (suc a - 1), ap (bit_and (suc a / 2)) below)

    double : (a : ℕ) → ¬ (0 < suc a % 2) → (k : ℕ) × (suc a / 2 ≡ 2 ^ k) → (k : ℕ) × (suc a ≡ 2 ^ k)
    double a even (k, e) = (suc k, omega (arith, two_pow_suc k))

pub bit_and-pred_of_two_pow : (k : ℕ) → bit_and (2 ^ k) (2 ^ k - 1) ≡ 0
bit_and-pred_of_two_pow k = bit_and_mask k (2 ^ k) ∙ mod_self (2 ^ k)

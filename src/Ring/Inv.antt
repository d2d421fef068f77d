-- ===== src/Ring/Inv.antt =====
-- The representation invariant of GCOM_RING_BUFFER, and the position arithmetic it justifies.
use native.Mathlib.Nat.{mod-eq_of_lt, mod-eq-sub-mod, mod-mod_of_dvd, dvd_refl}
use native.Mathlib.Nat.{pow-le-pow_right, dvd-add, add-mod-mod, add-mod_right, mod-eq-zero_of_dvd}
use Prim.Native.Nat.{◌∣◌}
use ghostcom.Base.{ℕ, zero, suc, ◌+◌, ◌-◌, ◌%◌, ◌^◌, ◌≤◌, ◌<◌, bit_and}
use ghostcom.Base.{◌≡◌, ap, ◌∙◌, sym, arith, ltb, if◌then◌else◌, Bool-cases, ltb→lt, ltb→le}
use mathlib.Core.Path.{subst}
use ghostcom.Base.{length, inl, inr}
use ghostcom.Bits.{bit_and_mask, two_pow_suc, two_pow_pos}
use ghostcom.Word.{add32, sub32}
use ghostcom.Ring.{Ring, read_available, write_available}

-- The size is a power of two that a LONG can hold, the mask is one less, the buffer has that
-- many bytes, and both positions are inside it.
pub record IsValid (ring : Ring) : Type 0 where
  pub exponent : ℕ
  pub small : exponent ≤ 31
  pub power : ring.size ≡ 2 ^ exponent
  pub masks : ring.mask ≡ ring.size - 1
  pub storage : length ring.buffer ≡ ring.size
  pub write_in : ring.write_pos < ring.size
  pub read_in : ring.read_pos < ring.size

two_pow-dvd : (d k : ℕ) → 2 ^ k ∣ 2 ^ (k + d)
two_pow-dvd zero k = subst (λ t. 2 ^ k ∣ 2 ^ t) (omega arith) (dvd_refl (2 ^ k))
two_pow-dvd (suc d) k = rw doubled (dvd-add (2 ^ k) (two_pow-dvd d k) (two_pow-dvd d k))
  where
    doubled : 2 ^ (k + suc d) ≡ 2 ^ (k + d) + 2 ^ (k + d)
    doubled = ap (λ t. 2 ^ t) {x = k + suc d} {y = suc (k + d)} (omega arith) ∙ two_pow_suc (k + d)

two_pow-dvd-word : (k : ℕ) → k ≤ 31 → 2 ^ k ∣ 2 ^ 32
two_pow-dvd-word k h = subst (λ t. 2 ^ k ∣ 2 ^ t) {y = 32} (omega arith) (two_pow-dvd (32 - k) k)

two_pow-le : (k : ℕ) → k ≤ 31 → 2 ^ k ≤ 2 ^ 31
two_pow-le k h = pow-le-pow_right (omega arith) h

-- Below twice the size, `%` is at most one subtraction.
pub mod_twice : (p i : ℕ) → i < p + p → i % p ≡ (if ltb i p then i else i - p)
mod_twice p i h = elim (Bool-cases (ltb i p)) [
  | inl low ↦ rw low (mod-eq_of_lt (ltb→lt i p low))
  | inr high ↦ rw high (
      mod-eq-sub-mod {n = i} {m = p} (ltb→le i p high)
      ∙ mod-eq_of_lt {n = i - p} {m = p} (omega (arith, ltb→le i p high)))
]

-- The places from `r` up to `w`, going round at `s`.
abbrev pub gap : ℕ → ℕ → ℕ → ℕ
gap s w r = if ltb w r then w + s - r else w - r

pub gap-forward :
    (s w r n : ℕ) → w < s → r < s → gap s w r + n < s → gap s ((w + n) % s) r ≡ gap s w r + n
gap-forward s w r n hw hr h = rw (mod_twice s (w + n) (ground arith)) (ground arith)

pub gap-advance :
    (s w r n : ℕ) → w < s → r < s → n ≤ gap s w r → gap s w ((r + n) % s) + n ≡ gap s w r
gap-advance s w r n hw hr h = rw (mod_twice s (r + n) (ground arith)) (ground arith)

-- The bytes held, from the positions.
abbrev pub used : Ring → ℕ
used ring = gap ring.size ring.write_pos ring.read_pos

module _ {ring : Ring} (v : IsValid ring) where
  open ring use {size, mask, write_pos, read_pos}

  pub size_bounds : (0 < size) × (size ≤ 2 ^ 31)
  size_bounds = omega (arith, two_pow_pos v.exponent, two_pow-le v.exponent v.small, v.power)

  pub mask-mod : (x : ℕ) → bit_and x mask ≡ x % size
  mask-mod x = rw (v.masks, v.power) (bit_and_mask v.exponent x)

  mod-word : (x : ℕ) → x % 2 ^ 32 % size ≡ x % size
  mod-word x = rw v.power (mod-mod_of_dvd _ x (two_pow-dvd-word v.exponent v.small))

  pub position-mask : (p : ℕ) → p < size → bit_and p mask ≡ p
  position-mask p h = mask-mod p ∙ mod-eq_of_lt h

  -- A position moved on by `n` and masked.
  pub advance-mask : (p n : ℕ) → bit_and (add32 p n) mask ≡ (p + n) % size
  advance-mask p n = mask-mod (add32 p n) ∙ mod-word (p + n)

  ahead : read_pos ≤ write_pos → sub32 write_pos read_pos % size ≡ write_pos - read_pos
  ahead h =
      ap (λ t. t % size) exact ∙ mod-eq_of_lt {n = write_pos - read_pos} (omega (arith, v.write_in))
    where
      exact : sub32 write_pos read_pos ≡ write_pos - read_pos
      exact = omega (arith, size_bounds, v.write_in)

  -- A whole word more is no change, since the size divides 2 ^ 32.
  word_more : (x : ℕ) → (x + 2 ^ 32) % size ≡ x % size
  word_more x = sym (add-mod-mod x (2 ^ 32) size) ∙ rw zero_word (ap (λ t. t % size) (omega arith))
    where
      zero_word : 2 ^ 32 % size ≡ 0
      zero_word = rw v.power (mod-eq-zero_of_dvd _ (two_pow-dvd-word v.exponent v.small))

  behind : write_pos < read_pos → sub32 write_pos read_pos % size ≡ write_pos + size - read_pos
  behind h =
      sym (add-mod_right (sub32 write_pos read_pos) size)
      ∙ ap (λ t. t % size) around
      ∙ word_more (write_pos + size - read_pos)
      ∙ mod-eq_of_lt {n = write_pos + size - read_pos} (omega (arith, v.read_in))
    where
      around : sub32 write_pos read_pos + size ≡ write_pos + size - read_pos + 2 ^ 32
      around = omega (arith, size_bounds, v.read_in)

  pub read_available-used : read_available ring ≡ used ring
  unfolding read_available
  read_available-used =
      mask-mod (sub32 write_pos read_pos) ∙ elim (Bool-cases (ltb write_pos read_pos)) [
        | inl wrapped ↦ rw wrapped (behind (ltb→lt write_pos read_pos wrapped))
        | inr plain ↦ rw plain (ahead (ltb→le write_pos read_pos plain))
      ]

  pub used-lt : used ring < size
  used-lt = ground (arith, v.write_in, v.read_in)

  pub write_available-used : write_available ring ≡ size - 1 - used ring
  unfolding write_available
  write_available-used = rw read_available-used (omega (arith, size_bounds, used-lt))

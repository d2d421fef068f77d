-- ===== src/Bits/Step.antt =====
-- `&` and `|` as recursions on the lowest binary digit, without the fuel of `bitwise`.
use Prim.Native.Nat.{max, digits, bit_and-bitwise, bit_or-bitwise}
use ghostcom.Base.{
  ℕ, zero, suc, ◌+◌, ◌*◌, ◌/◌, ◌%◌, ◌≤◌, min, bit_and, bit_or, ◌≡◌, refl, ap, arith,
}

-- Any two amounts of fuel that reach the first number give one result.
same_digits :
    (rest : ℕ → ℕ) (op : ℕ → ℕ → ℕ) (m n x y : ℕ)
    → x ≤ m
    → x ≤ n
    → digits rest op m x y ≡ digits rest op n x y
same_digits rest op zero zero x y hm hn = refl
same_digits rest op zero (suc n) (suc x) y hm hn = absurd (omega arith)
same_digits rest op zero (suc n) zero y hm hn = refl
same_digits rest op (suc m) zero (suc x) y hm hn = absurd (omega arith)
same_digits rest op (suc m) zero zero y hm hn = refl
same_digits rest op (suc m) (suc n) zero y hm hn = refl
same_digits rest op (suc m) (suc n) (suc x) y hm hn =
    ap (λ (d : ℕ). d * 2 + op (suc x % 2) (y % 2))
      (same_digits rest op m n (suc x / 2) (y / 2) (omega arith) (omega arith))

pub bit_and_step : (x y : ℕ) → bit_and x y ≡ bit_and (x / 2) (y / 2) * 2 + min (x % 2) (y % 2)
bit_and_step zero y = omega (arith, bit_and-bitwise 0 y, bit_and-bitwise 0 (y / 2))
bit_and_step (suc x) y = omega (
  arith,
  bit_and-bitwise (suc x) y,
  bit_and-bitwise (suc x / 2) (y / 2),
  same_digits (λ y. zero) min x (suc x / 2) (suc x / 2) (y / 2) (omega arith) (omega arith),
)

pub bit_or_step : (x y : ℕ) → bit_or x y ≡ bit_or (x / 2) (y / 2) * 2 + max (x % 2) (y % 2)
bit_or_step zero y = omega (arith, bit_or-bitwise 0 y, bit_or-bitwise 0 (y / 2))
bit_or_step (suc x) y = omega (
  arith,
  bit_or-bitwise (suc x) y,
  bit_or-bitwise (suc x / 2) (y / 2),
  same_digits (λ y. y) max x (suc x / 2) (suc x / 2) (y / 2) (omega arith) (omega arith),
)

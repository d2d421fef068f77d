-- ===== src/Base/Totals.antt =====
-- Sums of weights over lists, to count what is in them without regard to order.
use Prim.Native.Nat.{ℕ, ◌+◌}
use mathlib.Core.Path.{◌≡◌, refl, sym, ap, ◌∙◌}
use mathlib.Core.List.{List, [], ◌∷◌, ◌++◌, foldr, Perm}
use mathlib.Core.List.Perm
use native.Mathlib.Omega.{arith}

module _ {ℓ} {A : Type ℓ} (weight : A → ℕ) where
  abbrev pub total : List A → ℕ
  total [] = 0
  total (x ∷ xs) = weight x + total xs

  pub total-append : (xs ys : List A) → total (xs ++ ys) ≡ total xs + total ys
  total-append [] ys = omega arith
  total-append (x ∷ xs) ys = omega (arith, total-append xs ys)

  total-foldr : (xs : List A) → total xs ≡ foldr (λ x n. weight x + n) 0 xs
  total-foldr [] = refl
  total-foldr (x ∷ xs) = ap (λ n. weight x + n) (total-foldr xs)

  swapped : (x y : A) (n : ℕ) → weight x + (weight y + n) ≡ weight y + (weight x + n)
  swapped x y n = omega arith

  pub total-Perm : {xs ys : List A} → Perm xs ys → total xs ≡ total ys
  total-Perm {xs} {ys} p =
      total-foldr xs
      ∙ Perm.foldr-eq (hlevel) (λ (x : A) (n : ℕ). weight x + n) swapped p 0
      ∙ sym (total-foldr ys)

-- ===== src/Ring/Sample.antt =====
-- The values of a function at consecutive indices, and at the indices of a ring.
use ghostcom.Base.{ℕ, zero, suc, ◌+◌, ◌≤◌, ◌<◌, ◌≡◌, refl, ap, ap₂, ◌∙◌, arith}
use ghostcom.Base.{List, [], ◌∷◌, ◌++◌, length, get_or, take, drop, length-drop, get_or-drop}

abbrev pub sample : (ℕ → ℕ) → ℕ → ℕ → List ℕ
sample f s zero = []
sample f s (suc n) = f s ∷ sample f (s + 1) n

pub length-sample : (f : ℕ → ℕ) (s n : ℕ) → length (sample f s n) ≡ n
length-sample f s zero = refl
length-sample f s (suc n) = ap suc (length-sample f (s + 1) n)

-- Samples of functions that agree on the two ranges, which may start at different places.
pub sample_agree :
    (f g : ℕ → ℕ) (s t n : ℕ)
    → ((i : ℕ) → i < n → f (s + i) ≡ g (t + i))
    → sample f s n ≡ sample g t n
sample_agree f g s t zero h = refl
sample_agree f g s t (suc n) h = ap₂ ◌∷◌ first (sample_agree f g (s + 1) (t + 1) n rest)
  where
    first : f s ≡ g t
    first = ap f (omega arith) ∙ h 0 (omega arith) ∙ ap g (omega arith)

    rest : (i : ℕ) → i < n → f (s + 1 + i) ≡ g (t + 1 + i)
    rest i hi = ap f (omega arith) ∙ h (suc i) (omega arith) ∙ ap g (omega arith)

pub sample-add : (f : ℕ → ℕ) (s m n : ℕ) → sample f s (m + n) ≡ sample f s m ++ sample f (s + m) n
sample-add f s zero n = ap₂ (λ a b. sample f a b) (omega arith) (omega arith)
sample-add f s (suc m) n =
    ap (λ k. sample f s k) (sum m n)
    ∙ ap (λ t. f s ∷ t)
        (sample-add f (s + 1) m n ∙ ap (λ k. sample f (s + 1) m ++ sample f k n) (shift s m))
  where
    sum : (m n : ℕ) → suc m + n ≡ suc (m + n)
    sum m n = omega arith

    shift : (s m : ℕ) → s + 1 + m ≡ s + suc m
    shift s m = omega arith

-- A stretch of a list is a sample of its index function.
pub take-sample :
    (xs : List ℕ) (n : ℕ) → n ≤ length xs → take n xs ≡ sample (λ i. get_or xs i 0) 0 n
take-sample xs zero h = refl
take-sample [] (suc n) h = absurd (omega arith)
take-sample (x ∷ xs) (suc n) h =
    ap (λ t. x ∷ t)
      (take-sample xs n (omega arith)
        ∙ sample_agree (λ i. get_or xs i 0) (λ i. get_or (x ∷ xs) i 0) 0 1 n (λ i hi. step i))
  where
    step : (i : ℕ) → get_or xs (0 + i) 0 ≡ get_or (x ∷ xs) (1 + i) 0
    step i =
        ap (λ k. get_or xs k 0) {x = 0 + i} {y = i} (omega arith)
        ∙ ap (λ k. get_or (x ∷ xs) k 0) {x = suc i} {y = 1 + i} (omega arith)

pub take-of-sample : (f : ℕ → ℕ) (s m n : ℕ) → take m (sample f s (m + n)) ≡ sample f s m
take-of-sample f s zero n = refl
take-of-sample f s (suc m) n =
    ap (λ k. take (suc m) (sample f s k)) (sum m n)
    ∙ ap (λ t. f s ∷ t) (take-of-sample f (s + 1) m n)
  where
    sum : (m n : ℕ) → suc m + n ≡ suc (m + n)
    sum m n = omega arith

pub drop-of-sample : (f : ℕ → ℕ) (s m n : ℕ) → drop m (sample f s (m + n)) ≡ sample f (s + m) n
drop-of-sample f s zero n = ap₂ (λ a b. sample f a b) (omega arith) (omega arith)
drop-of-sample f s (suc m) n =
    ap (λ k. drop (suc m) (sample f s k)) (sum m n)
    ∙ drop-of-sample f (s + 1) m n
    ∙ ap (λ k. sample f k n) (shift s m)
  where
    sum : (m n : ℕ) → suc m + n ≡ suc (m + n)
    sum m n = omega arith

    shift : (s m : ℕ) → s + 1 + m ≡ s + suc m
    shift s m = omega arith

pub take-drop-sample :
    (xs : List ℕ) (offset n : ℕ)
    → offset + n ≤ length xs
    → take n (drop offset xs) ≡ sample (λ i. get_or xs i 0) offset n
take-drop-sample xs offset n h =
    take-sample (drop offset xs) n (omega (arith, length-drop offset xs))
    ∙ sample_agree (λ i. get_or (drop offset xs) i 0) (λ i. get_or xs i 0) 0 offset n
        (λ i _. get_or-drop offset xs (0 + i) 0 ∙ ap (λ k. get_or xs k 0) (shift offset i))
  where
    shift : (offset i : ℕ) → offset + (0 + i) ≡ offset + i
    shift offset i = omega arith

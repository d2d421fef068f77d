-- ===== src/Com/Settings/Proper.antt =====
-- Structures of proper bytes, read word by word and written again.
use ghostcom.Base.{ℕ, suc, ◌+◌, ◌*◌, ◌/◌, ◌%◌, ◌≤◌, ◌<◌, ◌≡◌, refl, ap, sym, arith, zero, ◌∙◌}
use ghostcom.Base.{List, [], ◌∷◌, take, length, get_or}
use ghostcom.Bytes.{put32, get32}

-- Every byte is one.
abbrev pub AreBytes : List ℕ → Type 0
AreBytes [] = Unit
AreBytes (b ∷ bytes) = (b < 256) × AreBytes bytes

-- A ULONG that is read from four bytes and put back.
pub put32-get32 :
    (a b c d : ℕ)
    → a < 256
    → b < 256
    → c < 256
    → d < 256
    → (rest : List ℕ) → put32 (a + 256 * b + 65536 * c + 16777216 * d) rest ≡ a ∷ b ∷ c ∷ d ∷ rest
put32-get32 a b c d ha hb hc hd rest =
    let n = a + 256 * b + 65536 * c + 16777216 * d in
    let e0 : n % 256 ≡ a = omega arith in
    let e1 : n / 256 % 256 ≡ b = omega arith in
    let e2 : n / 65536 % 256 ≡ c = omega arith in
    let e3 : n / 16777216 % 256 ≡ d = omega arith in rw (e0, e1, e2, e3) refl

get_or-AreBytes : (bytes : List ℕ) → AreBytes bytes → (i : ℕ) → get_or bytes i 0 < 256
get_or-AreBytes [] h i = omega arith
get_or-AreBytes (b ∷ bytes) h zero = h.0
get_or-AreBytes (b ∷ bytes) h (suc i) = get_or-AreBytes bytes h.1 i

abbrev tabulate : ℕ → (ℕ → ℕ) → List ℕ
tabulate zero f = []
tabulate (suc n) f = f 0 ∷ tabulate n (λ i. f (suc i))

pub take-tabulate :
    (n : ℕ) (xs : List ℕ) → n ≤ length xs → take n xs ≡ tabulate n (λ i. get_or xs i 0)
take-tabulate zero xs h = refl
take-tabulate (suc n) [] h = absurd (omega arith)
take-tabulate (suc n) (x ∷ xs) h = ap (λ t. x ∷ t) (take-tabulate n xs (omega arith))

module _ (bytes : List ℕ) (proper : AreBytes bytes) where
  -- The ULONG at an offset, put back.
  word :
      (at : ℕ) (rest : List ℕ)
      → put32 (get32 bytes at) rest
        ≡ get_or bytes at 0
          ∷ get_or bytes (at + 1) 0
          ∷ get_or bytes (at + 2) 0
          ∷ get_or bytes (at + 3) 0
          ∷ rest
  word at rest =
      put32-get32 (get_or bytes at 0) (get_or bytes (at + 1) 0) (get_or bytes (at + 2) 0)
        (get_or bytes (at + 3) 0) (is_byte at) (is_byte (at + 1)) (is_byte (at + 2))
        (is_byte (at + 3)) rest
    where
      is_byte : (i : ℕ) → get_or bytes i 0 < 256
      is_byte = get_or-AreBytes bytes proper

  pub one_word : 4 ≤ length bytes → put32 (get32 bytes 0) [] ≡ take 4 bytes
  one_word h = word 0 [] ∙ sym (take-tabulate 4 bytes h)

  pub four_words :
      16 ≤ length bytes
      → put32
          (get32 bytes 0)
          (put32 (get32 bytes 4) (put32 (get32 bytes 8) (put32 (get32 bytes 12) [])))
        ≡ take 16 bytes
  four_words h = rw (word 0, word 4, word 8, word 12) (sym (take-tabulate 16 bytes h))

  pub five_words :
      20 ≤ length bytes
      → put32 (get32 bytes 0) (
          put32
            (get32 bytes 4)
            (put32 (get32 bytes 8) (put32 (get32 bytes 12) (put32 (get32 bytes 16) []))))
        ≡ take 20 bytes
  five_words h = rw (word 0, word 4, word 8, word 12, word 16) (sym (take-tabulate 20 bytes h))

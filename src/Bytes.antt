-- ===== src/Bytes.antt =====
-- The packed little-endian layout of the structures of driver/src/ioctls.h and of ntddser.h.
use ghostcom.Base.{ℕ, ◌+◌, ◌*◌, ◌/◌, ◌%◌, ◌^◌, ◌<◌, ◌≡◌, arith, List, ◌∷◌, get_or}

-- A ULONG or LONG in memory.
abbrev pub put32 : ℕ → List ℕ → List ℕ
put32 n rest = (n % 256) ∷ (n / 256 % 256) ∷ (n / 65536 % 256) ∷ (n / 16777216 % 256) ∷ rest

-- The ULONG or LONG at an offset.
abbrev pub get32 : List ℕ → ℕ → ℕ
get32 bytes at =
    get_or bytes at 0
    + 256 * get_or bytes (at + 1) 0
    + 65536 * get_or bytes (at + 2) 0
    + 16777216 * get_or bytes (at + 3) 0

-- The digits of a ULONG make it up.
pub digits_sum :
    (n : ℕ)
    → n < 2 ^ 32
    → n % 256 + 256 * (n / 256 % 256) + 65536 * (n / 65536 % 256) + 16777216 * (n / 16777216 % 256)
      ≡ n
digits_sum n h = omega arith

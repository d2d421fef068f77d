-- ===== src/Word.antt =====
-- ULONG and LONG arithmetic: a value is its 32-bit pattern.
use ghostcom.Base.{ℕ, ◌+◌, ◌-◌, ◌%◌, ◌^◌}

-- `a + b` on 32 bits.
abbrev pub add32 : ℕ → ℕ → ℕ
add32 a b = (a + b) % 2 ^ 32

-- `a - b` on 32 bits, for `b` below 2 ^ 32.
abbrev pub sub32 : ℕ → ℕ → ℕ
sub32 a b = (a + 2 ^ 32 - b) % 2 ^ 32

-- `~a` on 32 bits.
abbrev pub not32 : ℕ → ℕ
not32 a = 2 ^ 32 - 1 - a

-- A size_t cast to ULONG.
abbrev pub ulong : ℕ → ℕ
ulong n = n % 2 ^ 32

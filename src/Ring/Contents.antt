-- ===== src/Ring/Contents.antt =====
-- The bytes that a ring holds, and what its two queries say of them.
use ghostcom.Base.{ℕ, ◌-◌, ◌%◌, ◌≡◌, min}
use ghostcom.Base.{List}
use ghostcom.Base.{length, get_or, ◌==◌}
use ghostcom.Ring.{Ring, write_available, is_empty}
use ghostcom.Ring.Inv.{IsValid, used}
use ghostcom.Ring.Inv.{read_available-used, write_available-used}
use ghostcom.Ring.Sample.{sample, length-sample}

-- The byte at an index that goes round the buffer.
abbrev pub byte_at : Ring → ℕ → ℕ
byte_at ring i = get_or ring.buffer (i % ring.size) 0

-- The bytes held, oldest first.
abbrev pub contents : Ring → List ℕ
contents ring = sample (byte_at ring) ring.read_pos (used ring)

pub length-contents : (ring : Ring) → length (contents ring) ≡ used ring
length-contents ring = length-sample (byte_at ring) ring.read_pos (used ring)

-- The number of bytes that GcomRingWrite takes, and GcomRingRead gives.
abbrev pub room : Ring → ℕ → ℕ
room ring len = min len (ring.size - 1 - used ring)

abbrev pub taken : Ring → ℕ → ℕ
taken ring len = min len (used ring)

module _ {ring : Ring} (v : IsValid ring) where
  -- The tests of the drain loops, on the bytes held.
  pub is_empty-contents : is_empty ring ≡ (length (contents ring) == 0)
  unfolding is_empty
  is_empty-contents = rw (read_available-used v, length-contents ring)

  pub write_available-contents : write_available ring ≡ ring.size - 1 - length (contents ring)
  write_available-contents = rw (length-contents ring) (write_available-used v)

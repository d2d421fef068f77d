-- ===== src/Ring/Fifo.antt =====
-- What a ring promises: a bounded queue of bytes, oldest first.
use ghostcom.Base.{ℕ, ◌-◌, min, List, ◌++◌, take, drop, length}

-- As many of the bytes as there is room for are appended.
unfoldable pub write : ℕ → List ℕ → List ℕ → ℕ → ℕ × List ℕ
write cap queue bytes len = let n = min len (cap - length queue) in (n, queue ++ take n bytes)

-- As many bytes as there are, `len` at most, are taken from the front.
unfoldable pub read : List ℕ → ℕ → ℕ × List ℕ × List ℕ
read queue len = let n = min len (length queue) in (n, take n queue, drop n queue)

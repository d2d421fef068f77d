-- ===== src/Ring/Copy.antt =====
-- What the copies of GcomRingWrite and GcomRingRead leave at each index.
use ghostcom.Base.{ℕ, ◌+◌, ◌-◌, ◌%◌, ◌≤◌, ◌<◌, ◌≡◌, refl, ap, ◌∙◌, arith, min, List, ◌++◌}
use ghostcom.Base.{
  length, get_or, take, drop, ltb, if◌then◌else◌, Bool-cases, true, false, ◌⊎◌, ltb→lt, ltb→le, inl,
  inr,
}
use ghostcom.Base.{length-append, length-take, length-drop, get_or-append_left, get_or-append_right}
use ghostcom.Base.{get_or-take, get_or-drop}
use ghostcom.Ring.{Ring, copy_to, copy_from, store}
use ghostcom.Ring.Inv.{IsValid, size_bounds, position-mask, mod_twice}
use ghostcom.Word.{sub32}
use native.Mathlib.Decide.{dec_lt}

module _ (buffer bytes : List ℕ) (offset : ℕ) (fits : offset + length bytes ≤ length buffer) where
  pub length-copy_to : length (copy_to buffer offset bytes) ≡ length buffer
  unfolding copy_to
  length-copy_to = omega (
    arith,
    length-append (take offset buffer) (bytes ++ drop (offset + length bytes) buffer),
    length-append bytes (drop (offset + length bytes) buffer),
    length-take offset buffer,
    length-drop (offset + length bytes) buffer,
  )

  before : length (take offset buffer) ≡ offset
  before = omega (arith, length-take offset buffer)

  pub get_or-copy_to_before :
      (i : ℕ) → i < offset → get_or (copy_to buffer offset bytes) i 0 ≡ get_or buffer i 0
  unfolding copy_to
  get_or-copy_to_before i h =
      get_or-append_left (take offset buffer) _ i 0 (omega (arith, before))
      ∙ get_or-take offset buffer i 0 h

  pub get_or-copy_to_inside :
      (i : ℕ)
      → i < length bytes
      → get_or (copy_to buffer offset bytes) (offset + i) 0 ≡ get_or bytes i 0
  unfolding copy_to
  get_or-copy_to_inside i h =
      get_or-append_right (take offset buffer) _ (offset + i) i 0 (omega (arith, before))
      ∙ get_or-append_left bytes _ i 0 h

  pub get_or-copy_to_after :
      (i : ℕ)
      → offset + length bytes ≤ i
      → get_or (copy_to buffer offset bytes) i 0 ≡ get_or buffer i 0
  unfolding copy_to
  get_or-copy_to_after i h =
      get_or-append_right (take offset buffer) _ i (i - offset) 0 (omega (arith, before))
      ∙ get_or-append_right bytes _ (i - offset) (i - offset - length bytes) 0 (omega arith)
      ∙ get_or-drop (offset + length bytes) buffer (i - offset - length bytes) 0
      ∙ ap (λ k. get_or buffer k 0) (omega arith)

-- The buffer after a write of `n` bytes.
module _ {ring : Ring} (v : IsValid ring) (bytes : List ℕ) (n : ℕ) (given : n ≤ length bytes)
    (room : n < ring.size) where
  open ring use {buffer, size, mask, write_pos}

  abbrev head_bytes : List ℕ
  head_bytes = take (size - write_pos) bytes

  abbrev tail_bytes : List ℕ
  tail_bytes = copy_from bytes (size - write_pos) (n - (size - write_pos))

  -- Without wrap there is one copy.
  store_once : write_pos + n ≤ size → store ring bytes n ≡ copy_to buffer write_pos (take n bytes)
  unfolding store
  store_once h = rw (position-mask v write_pos v.write_in, whole, same) refl
    where
      whole : min n (sub32 size write_pos) ≡ n
      whole = omega (arith, size_bounds v, v.write_in)

      same : ltb n n ≡ false
      same = ground arith

  store_twice :
      size < write_pos + n
      → store ring bytes n ≡ copy_to (copy_to buffer write_pos head_bytes) 0 tail_bytes
  unfolding store
  store_twice h = rw (position-mask v write_pos v.write_in, part, more) refl
    where
      part : min n (sub32 size write_pos) ≡ size - write_pos
      part = omega (arith, size_bounds v, v.write_in)

      more : ltb (size - write_pos) n ≡ true
      more = ground (arith, v.write_in)

  length-head : size < write_pos + n → length head_bytes ≡ size - write_pos
  length-head h = omega (arith, length-take (size - write_pos) bytes)

  length-tail : size < write_pos + n → length tail_bytes ≡ n - (size - write_pos)
  length-tail h = omega (
    arith,
    length-take (n - (size - write_pos)) (drop (size - write_pos) bytes),
    length-drop (size - write_pos) bytes,
  )

  once_fits : write_pos + n ≤ size → write_pos + length (take n bytes) ≤ length buffer
  once_fits h = omega (arith, length-take n bytes, v.storage)

  head_fits : size < write_pos + n → write_pos + length head_bytes ≤ length buffer
  head_fits h = omega (arith, length-head h, v.storage, v.write_in)

  tail_fits :
      size < write_pos + n → 0 + length tail_bytes ≤ length (copy_to buffer write_pos head_bytes)
  tail_fits h = omega (
    arith,
    length-tail h,
    length-copy_to buffer head_bytes write_pos (head_fits h),
    v.storage,
    v.write_in,
  )

  pub length-store : length (store ring bytes n) ≡ size
  length-store = elim (dec_lt size (write_pos + n)) [
    | yes h ↦ rw (store_twice h) (
        length-copy_to _ tail_bytes 0 (tail_fits h)
        ∙ length-copy_to buffer head_bytes write_pos (head_fits h)
        ∙ v.storage)
    | no h ↦
        rw (store_once (omega arith))
          (length-copy_to buffer (take n bytes) write_pos (once_fits (omega arith)) ∙ v.storage)
  ]

  -- An index outside the written stretch keeps its byte.
  pub store_old :
      (j : ℕ)
      → j < size
      → (j < write_pos) ⊎ (write_pos + n ≤ j)
      → write_pos + n ≤ j + size
      → get_or (store ring bytes n) j 0 ≡ get_or buffer j 0
  store_old j hj side around = elim (dec_lt size (write_pos + n)) [
    | yes h ↦ rw (store_twice h) (
        get_or-copy_to_after _ tail_bytes 0 (tail_fits h) j (omega (arith, length-tail h))
        ∙ get_or-copy_to_before buffer head_bytes write_pos (head_fits h) j (omega arith))
    | no h ↦ rw (store_once (omega arith)) (beside (omega arith) side)
  ]
    where
      beside :
          write_pos + n ≤ size
          → (j < write_pos) ⊎ (write_pos + n ≤ j)
          → get_or (copy_to buffer write_pos (take n bytes)) j 0 ≡ get_or buffer j 0
      beside h (inl left) =
          get_or-copy_to_before buffer (take n bytes) write_pos (once_fits h) j left
      beside h (inr right) =
          get_or-copy_to_after buffer (take n bytes) write_pos (once_fits h) j
            (omega (arith, length-take n bytes))

  -- The written stretch, below the end of the buffer.
  store_new_plain :
      (i : ℕ)
      → i < n
      → write_pos + i < size
      → get_or (store ring bytes n) (write_pos + i) 0 ≡ get_or bytes i 0
  store_new_plain i hi below = elim (dec_lt size (write_pos + n)) [
    | yes h ↦ rw (store_twice h) (
        get_or-copy_to_after _ tail_bytes 0 (tail_fits h) (write_pos + i)
          (omega (arith, length-tail h))
        ∙ get_or-copy_to_inside buffer head_bytes write_pos (head_fits h) i
            (omega (arith, length-head h))
        ∙ get_or-take (size - write_pos) bytes i 0 (omega arith))
    | no h ↦ rw (store_once (omega arith)) (
        get_or-copy_to_inside buffer (take n bytes) write_pos (once_fits (omega arith)) i
          (omega (arith, length-take n bytes))
        ∙ get_or-take n bytes i 0 hi)
  ]

  -- The written stretch, after the wrap.
  store_new_wrapped :
      (i j : ℕ)
      → i < n
      → write_pos + i ≡ size + j
      → get_or (store ring bytes n) j 0 ≡ get_or bytes i 0
  store_new_wrapped i j hi e = rw (store_twice (omega arith)) (
      ap (λ k. get_or (copy_to (copy_to buffer write_pos head_bytes) 0 tail_bytes) k 0) {x = j}
        {y = 0 + j} (omega arith)
      ∙ get_or-copy_to_inside _ tail_bytes 0 (tail_fits (omega arith)) j
          (omega (arith, length-tail (omega arith)))
      ∙ get_or-take (n - (size - write_pos)) (drop (size - write_pos) bytes) j 0 (omega arith)
      ∙ get_or-drop (size - write_pos) bytes j 0
      ∙ ap (λ k. get_or bytes k 0) (omega (arith, v.write_in)))

  -- The byte `i` places after the write position is the byte `i` written.
  pub store_new :
      (i : ℕ) → i < n → get_or (store ring bytes n) ((write_pos + i) % size) 0 ≡ get_or bytes i 0
  store_new i hi =
      rw (mod_twice size (write_pos + i) (omega (arith, v.write_in)))
        (split (Bool-cases (ltb (write_pos + i) size)))
    where
      split :
          (ltb (write_pos + i) size ≡ true) ⊎ (ltb (write_pos + i) size ≡ false)
          → get_or
              (store ring bytes n)
              (if ltb (write_pos + i) size then write_pos + i else write_pos + i - size)
              0
            ≡ get_or bytes i 0
      split (inl low) = rw low (store_new_plain i hi (ltb→lt (write_pos + i) size low))
      split (inr high) = rw high (
          store_new_wrapped i (write_pos + i - size) hi
            (omega (arith, ltb→le (write_pos + i) size high)))

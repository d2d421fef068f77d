-- ===== src/Ring/Reading.antt =====
-- GcomRingRead and GcomRingFlush against the bounded queue of the bytes held.
use native.Mathlib.Nat.{add-mod_right, mod-lt, mod-add-mod, add_comm, mod-eq_of_lt}
use ghostcom.Base.{ℕ, ◌+◌, ◌-◌, ◌%◌, ◌≤◌, ◌<◌, ◌≡◌, refl, ap, ap₂, ◌∙◌, sym, arith, min}
use ghostcom.Base.{[], ◌++◌, true, false, ◌⊎◌, inl, inr, bit_and}
use ghostcom.Base.{get_or, take, drop, ltb, ◌==◌, if◌then◌else◌, Bool-cases, ltb→lt, ltb→le}
use ghostcom.Base.{==_iff}
use ghostcom.Word.{add32, sub32}
use ghostcom.Ring.{Ring, read, flush, load, copy_from}
use ghostcom.Ring.Fifo
use ghostcom.Ring.Inv.{
  IsValid, gap, gap-advance, used, used-lt, size_bounds, advance-mask, position-mask,
}
use ghostcom.Ring.Inv.{read_available-used}
use ghostcom.Ring.Sample.{
  sample, sample_agree, sample-add, take-drop-sample, take-of-sample, drop-of-sample,
}
use ghostcom.Ring.Contents.{byte_at, contents, length-contents, taken}

module _ {ring : Ring} (v : IsValid ring) where
  open ring use {size, mask, buffer, write_pos, read_pos}

  abbrev advanced : ℕ → Ring
  advanced n = record ring { read_pos = bit_and (add32 read_pos n) mask }

  used-advanced : (n : ℕ) → n ≤ used ring → used (advanced n) + n ≡ used ring
  used-advanced n h =
      rw (advance-mask v read_pos n) (gap-advance size write_pos read_pos n v.write_in v.read_in h)

  advanced-IsValid : (n : ℕ) → IsValid (advanced n)
  advanced-IsValid n = record {
    exponent = v.exponent;
    small = v.small;
    power = v.power;
    masks = v.masks;
    storage = v.storage;
    write_in = v.write_in;
    read_in = rw (advance-mask v read_pos n) (mod-lt (read_pos + n) (size_bounds v).0);
  }

  whole :
      (n : ℕ)
      → n ≤ used ring
      → contents ring ≡ sample (byte_at ring) read_pos (n + used (advanced n))
  whole n h =
      ap (sample (byte_at ring) read_pos) (sym (used-advanced n h) ∙ add_comm (used (advanced n)) n)

  contents-advanced : (n : ℕ) → n ≤ used ring → contents (advanced n) ≡ drop n (contents ring)
  contents-advanced n h =
      sym (
        sample_agree (byte_at ring) (byte_at ring) (read_pos + n) (advanced n).read_pos
          (used (advanced n)) (λ i _. ap (λ k. get_or buffer k 0) (place i)))
      ∙ sym (drop-of-sample (byte_at ring) read_pos n (used (advanced n)))
      ∙ ap (drop n) (sym (whole n h))
    where
      place : (i : ℕ) → (read_pos + n + i) % size ≡ (bit_and (add32 read_pos n) mask + i) % size
      place i = rw (advance-mask v read_pos n) (sym (mod-add-mod (read_pos + n) size i))

  -- One copy out of the buffer is a sample of the bytes from its place on.
  copy_from-sample :
      (offset start n : ℕ)
      → offset + n ≤ size
      → (start ≡ offset) ⊎ (start ≡ offset + size)
      → copy_from buffer offset n ≡ sample (byte_at ring) start n
  copy_from-sample offset start n h place =
      take-drop-sample buffer offset n (omega (arith, v.storage))
      ∙ sample_agree (λ i. get_or buffer i 0) (byte_at ring) offset start n
          (λ i hi. ap (λ k. get_or buffer k 0) (same place i hi))
    where
      same :
          (start ≡ offset) ⊎ (start ≡ offset + size)
          → (i : ℕ) → i < n
          → offset + i ≡ (start + i) % size
      same (inl e) i hi = rw e (sym (mod-eq_of_lt {n = offset + i} {m = size} (omega arith)))
      same (inr e) i hi =
          sym (mod-eq_of_lt {n = offset + i} {m = size} (omega arith))
          ∙ sym (add-mod_right (offset + i) size)
          ∙ ap (λ k. k % size) (omega arith)

  load-sample : (n : ℕ) → n ≤ used ring → load ring n ≡ sample (byte_at ring) read_pos n
  unfolding load
  load-sample n h = rw (position-mask v read_pos v.read_in, to_end) (split (Bool-cases _))
    where
      to_end : sub32 size read_pos ≡ size - read_pos
      to_end = omega (arith, size_bounds v, v.read_in)

      split :
          (ltb (min n (size - read_pos)) n ≡ true) ⊎ (ltb (min n (size - read_pos)) n ≡ false)
          → (if ltb (min n (size - read_pos)) n
              then copy_from buffer read_pos (min n (size - read_pos))
                ++ copy_from buffer 0 (n - min n (size - read_pos))
              else copy_from buffer read_pos (min n (size - read_pos)))
            ≡ sample (byte_at ring) read_pos n
      split (inl over) =
          let long : min n (size - read_pos) < n = ltb→lt (min n (size - read_pos)) n over in
          let m : ℕ = size - read_pos in
          let cut : min n (size - read_pos) ≡ m = omega arith in
          rw (over, cut)
            (ap₂ ◌++◌ (copy_from-sample read_pos read_pos m (omega (arith, v.read_in)) (inl refl)) (
                copy_from-sample 0 (read_pos + m) (n - m) (omega (arith, used-lt v))
                  (inr (omega (arith, v.read_in))))
              ∙ sym (sample-add (byte_at ring) read_pos m (n - m))
              ∙ ap (sample (byte_at ring) read_pos) (omega arith))
      split (inr under) =
          let short : n ≤ min n (size - read_pos) = ltb→le (min n (size - read_pos)) n under in
          let cut : min n (size - read_pos) ≡ n = omega arith in
          rw (under, cut)
            (copy_from-sample read_pos read_pos n (omega (arith, v.read_in)) (inl refl))

  load-take : (n : ℕ) → n ≤ used ring → load ring n ≡ take n (contents ring)
  load-take n h =
      load-sample n h
      ∙ sym (take-of-sample (byte_at ring) read_pos n (used (advanced n)))
      ∙ ap (take n) (sym (whole n h))

  read_eq :
      (len : ℕ)
      → read ring len ≡ (
          if taken ring len == 0
          then (0, [], ring)
          else (taken ring len, load ring (taken ring len), advanced (taken ring len)))
  unfolding read
  read_eq len = rw (read_available-used v)

  -- On a valid ring GcomRingRead takes as many of the oldest bytes as are asked for and
  -- there, in order, and returns their number; the ring stays valid and keeps its size.
  pub read_refines :
      (len : ℕ)
      → let (n, bytes, after) = read ring len in
        IsValid after
        × (after.size ≡ size)
        × ((n, bytes, contents after) ≡ Fifo.read (contents ring) len)
  unfolding Fifo.read
  read_refines len = elim (Bool-cases (taken ring len == 0)) [
    | inl nothing ↦
        rw (read_eq len, nothing, length-contents ring)
          (v, refl, let e : taken ring len ≡ 0 = (==_iff _ 0).0 nothing in rw e refl)
    | inr something ↦
        rw (read_eq len, something, length-contents ring)
          (
            advanced-IsValid (taken ring len),
            refl,
            λ i. (
              taken ring len,
              load-take (taken ring len) (omega arith) i,
              contents-advanced (taken ring len) (omega arith) i,
            ),
          )
  ]

  -- GcomRingFlush empties a valid ring, which stays valid and keeps its size.
  pub flush_refines :
      IsValid (flush ring) × ((flush ring).size ≡ size) × (contents (flush ring) ≡ [])
  unfolding flush
  flush_refines = (
    record {
      exponent = v.exponent;
      small = v.small;
      power = v.power;
      masks = v.masks;
      storage = v.storage;
      write_in = v.write_in;
      read_in = v.write_in;
    },
    refl,
    ap (sample (byte_at (flush ring)) write_pos) none_used,
  )
    where
      none_used : gap size write_pos write_pos ≡ 0
      none_used = ground arith

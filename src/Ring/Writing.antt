-- ===== src/Ring/Writing.antt =====
-- GcomRingWrite against the bounded queue of the bytes held.
use native.Mathlib.Nat.{add-mod_right, mod-lt}
use ghostcom.Base.{ℕ, ◌+◌, ◌-◌, ◌%◌, ◌≤◌, ◌<◌, ◌≡◌, refl, ap, ap₂, ◌∙◌, sym, arith}
use ghostcom.Base.{List, ◌++◌, append-nil, ◌⊎◌, inl, inr, bit_and}
use ghostcom.Base.{length, get_or, take, ltb, ◌==◌, if◌then◌else◌, Bool-cases, ltb→le}
use ghostcom.Base.{==_iff}
use ghostcom.Word.{add32}
use ghostcom.Ring.{Ring, write, store}
use ghostcom.Ring.Fifo
use ghostcom.Ring.Inv.{
  IsValid, gap, gap-forward, used, used-lt, size_bounds, mod_twice, advance-mask,
}
use ghostcom.Ring.Inv.{write_available-used}
use ghostcom.Ring.Sample.{sample, sample_agree, sample-add, take-sample}
use ghostcom.Ring.Copy.{length-store, store_old, store_new}
use ghostcom.Ring.Contents.{byte_at, contents, length-contents, room}

-- A held byte's place is outside the next `n` free places.
outside :
    (s w r n i : ℕ)
    → w < s
    → r < s
    → gap s w r + n < s
    → i < gap s w r
    → (((r + i) % s < w) ⊎ (w + n ≤ (r + i) % s)) × (w + n ≤ (r + i) % s + s)
outside s w r n i hw hr h hi = rw (mod_twice s (r + i) (ground arith)) (ground arith)

module _ {ring : Ring} (v : IsValid ring) where
  open ring use {size, mask, buffer, write_pos, read_pos}

  -- The free place `i` places after the bytes held.
  write_place : (i : ℕ) → (read_pos + used ring + i) % size ≡ (write_pos + i) % size
  write_place i = elim (Bool-cases (ltb write_pos read_pos)) [
    | inl wrapped ↦
        rw wrapped
          (ap (λ k. k % size) (omega (arith, v.read_in)) ∙ add-mod_right (write_pos + i) size)
    | inr plain ↦ rw plain (ap (λ k. k % size) (omega (arith, ltb→le write_pos read_pos plain)))
  ]

  abbrev written : List ℕ → ℕ → Ring
  written bytes n = record ring {
    buffer = store ring bytes n;
    write_pos = bit_and (add32 write_pos n) mask;
  }

  used-written :
      (n : ℕ) (bytes : List ℕ) → used ring + n < size → used (written bytes n) ≡ used ring + n
  used-written n bytes h =
      rw (advance-mask v write_pos n) (gap-forward size write_pos read_pos n v.write_in v.read_in h)

  written-IsValid :
      (n : ℕ) (bytes : List ℕ) → n ≤ length bytes → n < size → IsValid (written bytes n)
  written-IsValid n bytes given h = record {
    exponent = v.exponent;
    small = v.small;
    power = v.power;
    masks = v.masks;
    storage = length-store v bytes n given h;
    write_in = rw (advance-mask v write_pos n) (mod-lt (write_pos + n) (size_bounds v).0);
    read_in = v.read_in;
  }

  contents-written :
      (n : ℕ) (bytes : List ℕ)
      → n ≤ length bytes
      → used ring + n < size
      → contents (written bytes n) ≡ contents ring ++ take n bytes
  contents-written n bytes given h =
      ap (sample (byte_at after) read_pos) (used-written n bytes h)
      ∙ sample-add (byte_at after) read_pos (used ring) n
      ∙ ap₂ ◌++◌ (sample_agree (byte_at after) (byte_at ring) read_pos read_pos (used ring) old) (
          sample_agree (byte_at after) (λ i. get_or bytes i 0) (read_pos + used ring) 0 n new
          ∙ sym (take-sample bytes n given))
    where
      after : Ring
      after = written bytes n

      small : n < size
      small = omega arith

      old : (i : ℕ) → i < used ring → byte_at after (read_pos + i) ≡ byte_at ring (read_pos + i)
      old i hi =
          store_old v bytes n given small ((read_pos + i) % size) (mod-lt _ (size_bounds v).0)
            (outside size write_pos read_pos n i v.write_in v.read_in h hi).0
            (outside size write_pos read_pos n i v.write_in v.read_in h hi).1

      new : (i : ℕ) → i < n → byte_at after (read_pos + used ring + i) ≡ get_or bytes (0 + i) 0
      new i hi =
          ap (λ k. get_or (store ring bytes n) k 0) (write_place i)
          ∙ store_new v bytes n given small i hi
          ∙ ap (λ k. get_or bytes k 0) (omega arith)

  write_eq :
      (bytes : List ℕ) (len : ℕ)
      → write ring bytes len
        ≡ (if room ring len == 0 then (0, ring) else (room ring len, written bytes (room ring len)))
  unfolding write
  write_eq bytes len = rw (write_available-used v)

  -- On a valid ring, and for a length that the bytes have, GcomRingWrite appends as many of
  -- the bytes as there is room for and returns their number; the ring stays valid and keeps
  -- its size.
  pub write_refines :
      (bytes : List ℕ) (len : ℕ)
      → len ≤ length bytes
      → let (n, after) = write ring bytes len in
        IsValid after
        × (after.size ≡ size)
        × ((n, contents after) ≡ Fifo.write (size - 1) (contents ring) bytes len)
  unfolding Fifo.write
  write_refines bytes len given = elim (Bool-cases (room ring len == 0)) [
    | inl full ↦
        rw (write_eq bytes len, full, length-contents ring)
          (
            v,
            refl,
            let e : room ring len ≡ 0 = (==_iff _ 0).0 full in
                rw e (ap (λ q. (0, q)) (sym (append-nil (contents ring)))),
          )
    | inr some_room ↦
        rw (write_eq bytes len, some_room, length-contents ring)
          (
            written-IsValid (room ring len) bytes (omega arith) (omega (arith, (size_bounds v).0)),
            refl,
            ap (λ q. (room ring len, q))
                (contents-written (room ring len) bytes (omega arith) (omega (arith, used-lt v))),
          )
  ]

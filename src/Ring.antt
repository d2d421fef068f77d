-- ===== src/Ring.antt =====
-- driver/src/ringbuf.h: the byte ring of one direction. A function that updates `*Ring` returns
-- the new ring beside its result. Positions and sizes are 32-bit patterns.
pub mod Fifo
pub mod Copy
pub mod Inv
pub mod Contents
pub mod Writing
pub mod Reading
pub mod Starting
pub mod Run
pub mod Sample
use ghostcom.Base.{
  ℕ, ◌+◌, ◌-◌, ◌≤◌, min, bit_and, Bool, not, ◌||◌, Option, none, some, List, [], ◌++◌,
}
use ghostcom.Base.{ltb, ◌==◌, if◌then◌else◌, take, drop, length}
use ghostcom.Word.{add32, sub32}
use ghostcom.Status.{Status, success, invalid_parameter, insufficient_resources}

-- GCOM_RING_BUFFER. `buffer` is the block that `Buffer` points to; NULL is the empty block.
pub record Ring : Type 0 where
  pub buffer : List ℕ
  pub size : ℕ
  pub mask : ℕ
  pub write_pos : ℕ
  pub read_pos : ℕ

-- RtlCopyMemory into `buffer + offset`.
pub copy_to : List ℕ → ℕ → List ℕ → List ℕ
copy_to buffer offset bytes = take offset buffer ++ (bytes ++ drop (offset + length bytes) buffer)

-- RtlCopyMemory of `n` bytes from `buffer + offset`.
abbrev pub copy_from : List ℕ → ℕ → ℕ → List ℕ
copy_from buffer offset n = take n (drop offset buffer)

-- GcomRingInit. `allocate` stands for ExAllocatePool2, which returns a block or NULL.
unfoldable pub init : (ℕ → Option (List ℕ)) → Ring → ℕ → Status × Ring
init allocate ring size =
    if size == 0 || not (bit_and size (sub32 size 1) == 0)
    then (invalid_parameter, ring)
    else elim (allocate size) [
      | none ↦ (insufficient_resources, record ring { buffer = [] })
      | some block ↦ (
        success,
        record { buffer = block; size = size; mask = size - 1; write_pos = 0; read_pos = 0 },
      )
    ]

-- GcomRingFree
unfoldable pub free : Ring → Ring
free ring = record { buffer = []; size = 0; mask = 0; write_pos = 0; read_pos = 0 }

-- GcomRingReadAvailable
unfoldable pub read_available : Ring → ℕ
read_available ring = bit_and (sub32 ring.write_pos ring.read_pos) ring.mask

-- GcomRingWriteAvailable
unfoldable pub write_available : Ring → ℕ
write_available ring = sub32 (sub32 ring.size 1) (read_available ring)

-- GcomRingIsEmpty
unfoldable pub is_empty : Ring → Bool
is_empty ring = read_available ring == 0

-- The buffer after the one or two copies of GcomRingWrite.
pub store : Ring → List ℕ → ℕ → List ℕ
store ring bytes to_write =
    let wp = bit_and ring.write_pos ring.mask in
    let first_chunk = min to_write (sub32 ring.size wp) in
    let stored = copy_to ring.buffer wp (take first_chunk bytes) in
    if ltb first_chunk to_write
    then copy_to stored 0 (copy_from bytes first_chunk (to_write - first_chunk))
    else stored

-- GcomRingWrite
unfoldable pub write : Ring → List ℕ → ℕ → ℕ × Ring
write ring bytes len =
    let to_write = min len (write_available ring) in
    if to_write == 0 then (0, ring) else (
      to_write,
      record ring {
        buffer = store ring bytes to_write;
        write_pos = bit_and (add32 ring.write_pos to_write) ring.mask;
      },
    )

-- What the one or two copies of GcomRingRead put into `Data`.
pub load : Ring → ℕ → List ℕ
load ring to_read =
    let rp = bit_and ring.read_pos ring.mask in
    let first_chunk = min to_read (sub32 ring.size rp) in
    let loaded = copy_from ring.buffer rp first_chunk in
    if ltb first_chunk to_read
    then loaded ++ copy_from ring.buffer 0 (to_read - first_chunk)
    else loaded

-- GcomRingRead: the count, the bytes written to `Data`, and the ring.
unfoldable pub read : Ring → ℕ → ℕ × List ℕ × Ring
read ring len =
    let to_read = min len (read_available ring) in
    if to_read == 0 then (0, [], ring) else (
      to_read,
      load ring to_read,
      record ring { read_pos = bit_and (add32 ring.read_pos to_read) ring.mask },
    )

-- GcomRingFlush
unfoldable pub flush : Ring → Ring
flush ring = record ring { read_pos = ring.write_pos }

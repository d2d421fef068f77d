-- ===== src/Tests/Rings.antt =====
-- Rings of four bytes (driver/src/ringbuf.h) at work.
use ghostcom.Base.{
  ℕ, ◌^◌, ◌≡◌, ◌↔◌, refl, arith, replicate, length, List, [], ◌∷◌, Option, none, some, ap, sym,
}
use ghostcom.Status.{success, invalid_parameter}
use ghostcom.Ring.{init, read, write}
use ghostcom.Ring.Fifo
use ghostcom.Ring.Inv.{IsValid}
use ghostcom.Ring.Contents.{contents}
use ghostcom.Ring.Writing.{write_refines}
use ghostcom.Ring.Reading.{read_refines}
use ghostcom.Ring.Starting.{init-success_iff}
use ghostcom.Ring.Run.{run, fifo_run, run_refines, put, get, clear}
use ghostcom.Tests.Model.{two_ring, two_ring-IsValid}

write_refines_example :
    let (n, after) = write two_ring (9 ∷ 6 ∷ []) 2 in
    IsValid after
    × (after.size ≡ 4)
    × ((n, contents after) ≡ Fifo.write 3 (contents two_ring) (9 ∷ 6 ∷ []) 2)
write_refines_example = write_refines two_ring-IsValid (9 ∷ 6 ∷ []) 2 (omega arith)

read_refines_example :
    let (n, got, after) = read two_ring 5 in
    IsValid after × (after.size ≡ 4) × ((n, got, contents after) ≡ Fifo.read (contents two_ring) 5)
read_refines_example = read_refines two_ring-IsValid 5

run_refines_example :
    let calls = put (9 ∷ 6 ∷ []) ∷ get 2 ∷ put (5 ∷ []) ∷ clear ∷ [] in
    let (replies, end) = run two_ring calls in
    IsValid end × ((replies, contents end) ≡ fifo_run 3 (contents two_ring) calls)
run_refines_example =
    run_refines (put (9 ∷ 6 ∷ []) ∷ get 2 ∷ put (5 ∷ []) ∷ clear ∷ []) two_ring-IsValid

-- Memory for every request.
abbrev zeroed : ℕ → Option (List ℕ)
zeroed n = some (replicate n 0)

zeroed-length : (block : List ℕ) → zeroed 8 ≡ some block → length block ≡ 8
zeroed-length block e = sym (ap length_or e)
  where
    length_or : Option (List ℕ) → ℕ
    length_or none = 8
    length_or (some b) = length b

-- A size that is refused.
init_three : (init zeroed two_ring 3).0 ≡ invalid_parameter
unfolding init
init_three = refl

init_eight : (init zeroed two_ring 8).0 ≡ success
unfolding init
init_eight = refl

init-success_iff_example :
    ((init zeroed two_ring 8).0 ≡ success)
    ↔ (((k : ℕ) × (8 ≡ 2 ^ k)) × ((block : List ℕ) × (zeroed 8 ≡ some block)))
init-success_iff_example = init-success_iff zeroed two_ring 8 (omega arith)

-- ===== src/Entry/Watch/Seen.antt =====
-- What the routines that watch the queries leave alone, and what they count.
use ghostcom.Base.{ℕ, ◌+◌, ◌%◌, ◌^◌, ◌<◌, ◌≡◌, refl, ap₂, arith, Bool-cases, inl, inr}
use ghostcom.Base.{List, [], ◌∷◌, map, ◌==◌, if◌then◌else◌}
use ghostcom.Status.{Status}
use ghostcom.Entry.Watch.{
  DiagCalls, Answer, WatchedIrp, query_relations, other_irp, bus_relations, Watch,
  pnp_preprocess_irp, watch_all,
}

-- Whether an IRP asks for the bus's relations, and how many do.
abbrev pub one_if_bus : WatchedIrp → ℕ
one_if_bus other_irp = 0
one_if_bus (query_relations type) = if type == bus_relations then 1 else 0

abbrev pub bus_queries : List (WatchedIrp × Answer) → ℕ
bus_queries [] = 0
bus_queries ((irp, answer) ∷ irps) = one_if_bus irp + bus_queries irps

module _ (calls : DiagCalls) (code : Status → ℕ) where
  watch_one :
      (irp : WatchedIrp) (answer : Answer) (w : Watch)
      → w.seen < 2 ^ 32
      → let (st, w') = pnp_preprocess_irp calls code irp answer w in
        (st ≡ answer.dispatched) × (w'.seen ≡ (w.seen + one_if_bus irp) % 2 ^ 32)
  unfolding pnp_preprocess_irp
  watch_one other_irp answer w small = (refl, omega arith)
  watch_one (query_relations type) answer w small = elim (Bool-cases (type == bus_relations)) [
    | inr elsewhere ↦ rw elsewhere (refl, omega arith)
    | inl bus ↦ rw bus (refl, refl)
  ]

  -- Whatever the calls for the registry return: GcomPnpPreprocessIrp returns for each IRP
  -- what the framework's dispatch returns, and its count, which starts at a number of 32
  -- bits, grows by the number of queries for the bus's relations, on 32 bits.
  pub watch_all-dispatched :
      (irps : List (WatchedIrp × Answer)) (w : Watch)
      → w.seen < 2 ^ 32
      → ((watch_all calls code irps w).0 ≡ map (λ (p : WatchedIrp × Answer). p.1.dispatched) irps)
        × ((watch_all calls code irps w).1.seen ≡ (w.seen + bus_queries irps) % 2 ^ 32)
  unfolding watch_all
  watch_all-dispatched [] w small = (refl, omega arith)
  watch_all-dispatched ((irp, answer) ∷ irps) w small =
      let (st, w') = pnp_preprocess_irp calls code irp answer w in
      let (returned, seen) = watch_one irp answer w small in
      let (rest, count) = watch_all-dispatched irps w' (omega (arith, seen)) in
      (ap₂ ◌∷◌ returned rest, omega (arith, seen, count))

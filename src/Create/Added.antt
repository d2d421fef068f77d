-- ===== src/Create/Added.antt =====
-- The pair that a GcomPortPairCreate which succeeds adds: it is ready for use.
use ghostcom.Base.{
  ℕ, ◌^◌, ◌<◌, ◌≡◌, ◌≢◌, refl, arith, inl, inr, true, Option, none, some, List, [], length,
}
use ghostcom.Status.{Status, nt_success, success}
use ghostcom.Word.{add32}
use ghostcom.Wdf.{Wdf, held}
use ghostcom.Ring.Inv.{IsValid}
use ghostcom.Kernel.{Kernel}
use ghostcom.Pair.{PortPair}
use ghostcom.Table.{Driver, pointer, free_slot, set_slot, choose_number}
use ghostcom.Table.Sound.{put-same, put-other}
use ghostcom.Transfer.Flow.{IsSettled}
use ghostcom.Life.World.{Reachable, start, world}
use ghostcom.Create.{PairCalls, port_pair_create}
use ghostcom.Create.Rings.{ready, new_ring}
use ghostcom.Create.Pairs.{complete_pair}
use ghostcom.Create.Promise.{Creates, create_failed, create_worked, port_pair_create-Creates}

-- What a new pair is for the callbacks: nobody has it open, and both directions are settled and empty.
pub record IsNew (wdf : Wdf) (number : ℕ) (pp : PortPair wdf.Queue) : Type 0 where
  pub com_number : pp.port_number ≡ number
  pub comp_number : pp.companion_index ≡ number
  pub is_active : pp.active ≡ true
  pub reachable : Reachable wdf (world (some pp) 0 0 true)
  pub to_companion :
      IsSettled wdf pp.com_to_companion (held wdf pp.comp_read_queue) (held wdf pp.com_write_queue)
  pub to_com :
      IsSettled wdf pp.companion_to_com (held wdf pp.com_read_queue) (held wdf pp.comp_write_queue)

-- The pair that a pointer of the table leads to.
pub record IsAdded (wdf : Wdf) (d d' : Driver wdf.Queue) (number p : ℕ) : Type 0 where
  pub slot : ℕ
  pub was_free : free_slot d.ports ≡ some slot
  pub in_table : d'.ports ≡ set_slot slot (pointer p) d.ports
  pub counted : d'.port_count ≡ add32 d.port_count 1
  pub pair : PortPair wdf.Queue
  pub there : d'.heap p ≡ some pair
  pub others : (q : ℕ) → p ≢ q → d'.heap q ≡ d.heap q
  pub new : IsNew wdf number pair

pub new_ring-IsValid : (block : List ℕ) → length block ≡ 65536 → IsValid (new_ring block)
new_ring-IsValid block long = record {
  exponent = 16;
  small = omega arith;
  power = refl;
  masks = refl;
  storage = long;
  write_in = omega arith;
  read_in = omega arith;
}

module _ (wdf : Wdf) (calls : PairCalls wdf.Queue)
    (com_queue : wdf.pending calls.com_calls.second_queue.1 ≡ [])
    (comp_queue : wdf.pending calls.companion_calls.second_queue.1 ≡ []) where
  complete_pair-IsNew :
      (number : ℕ) (k : Kernel) (first second : List ℕ)
      → length first ≡ 65536
      → length second ≡ 65536
      → IsNew wdf number (complete_pair calls number (ready calls number k first second)).pair
  complete_pair-IsNew number k first second long long' = record {
    com_number = refl;
    comp_number = refl;
    is_active = refl;
    reachable = start _ refl refl refl;
    to_companion = record {
      valid = new_ring-IsValid first long;
      readers = inl refl;
      writers = inr com_queue;
    };
    to_com = record {
      valid = new_ring-IsValid second long';
      readers = inl refl;
      writers = inr comp_queue;
    };
  }

module _ (wdf : Wdf) (calls : PairCalls wdf.Queue) (requested : ℕ) (d : Driver wdf.Queue)
    (counts : d.port_count < 2 ^ 32)
    (fresh : (p : ℕ) → calls.pair_memory ≡ some p → d.heap p ≡ none)
    (com_queue : wdf.pending calls.com_calls.second_queue.1 ≡ [])
    (comp_queue : wdf.pending calls.companion_calls.second_queue.1 ≡ [])
    (block_long : (block : List ℕ) → calls.first_ring 65536 ≡ some block → length block ≡ 65536)
    (block_long' : (block : List ℕ)
      → calls.second_ring 65536 ≡ some block
      → length block ≡ 65536) where
  added :
      {result : Status × Option ℕ × Driver wdf.Queue}
      → nt_success result.0 ≡ true
      → Creates calls requested d result
      → (number p : ℕ) × (choose_number calls.com_link calls.comp_link d requested
          ≡ (success, number))
        × (result.1 ≡ some p)
        × IsAdded wdf d result.2 number p
  added h (create_failed bad r) = absurd (cc (h, bad))
  added h (create_worked {slot} {number} {p} {first} {second} e c given_p e1 e2) = (
    number,
    p,
    c,
    refl,
    record {
      slot = slot;
      was_free = e;
      in_table = refl;
      counted = refl;
      pair = _;
      there = put-same d.heap p _;
      others = λ q other. put-other d.heap p q _ other;
      new =
          complete_pair-IsNew wdf calls com_queue comp_queue number d.kernel first second
            (block_long first e1) (block_long' second e2);
    },
  )

  -- A GcomPortPairCreate that succeeds puts a pair with the number that was chosen in the
  -- first free entry, counts it, and changes no other pair. Nobody has the new pair open, its
  -- one reference is the creation's, and both of its directions are settled. This holds where
  -- the memory given was free and of the length asked for, the new queues are empty, and the
  -- count is one of 32 bits.
  pub port_pair_create-IsAdded :
      nt_success (port_pair_create calls requested d).0 ≡ true
      → (number p : ℕ) × (choose_number calls.com_link calls.comp_link d requested
          ≡ (success, number))
        × ((port_pair_create calls requested d).1 ≡ some p)
        × IsAdded wdf d (port_pair_create calls requested d).2 number p
  port_pair_create-IsAdded good =
      added good (port_pair_create-Creates calls requested d counts fresh)

-- ===== src/Create/Progress.antt =====
-- When GcomPortPairCreate succeeds.
use ghostcom.Base.{
  ℕ, ◌≤◌, ◌<◌, ◌≡◌, refl, sym, ap, subst, arith, inl, inr, Bool, true, false, Bool-cases, ◌==◌,
  ==_iff, Option, none, some, List,
}
use ghostcom.Status.{Status, nt_success, success, insufficient_resources}
use ghostcom.Attempt.{given, go_on_good, call-then}
use ghostcom.Kernel.{Kernel, Making, DeviceCalls}
use ghostcom.Com.Device.{com_port_create}
use ghostcom.Companion.Device.{companion_create}
use ghostcom.Table.{Driver, free_slot, is_taken, choose_number, find_free_port_number}
use ghostcom.Table.Numbers.{IsLeastFree, find_free_port_number-IsLeastFree}
use ghostcom.Create.{
  PairCalls, companion_or_back, make_devices, initialise, publish, start_pair, give_back, reserve,
  fill_slot, port_pair_create,
}
use ghostcom.Create.Rings.{started, first-then, second-then}

-- All calls that the creation of a device depends on succeed.
pub record AllWell {Queue : Type 0} (calls : DeviceCalls Queue) : Type 0 where
  pub init_well : calls.init_given ≡ true
  pub name_well : nt_success calls.assign_name ≡ true
  pub device_well : nt_success calls.device_create ≡ true
  pub default_well : nt_success calls.default_queue ≡ true
  pub first_well : nt_success calls.first_queue.0 ≡ true
  pub second_well : nt_success calls.second_queue.0 ≡ true
  pub third_well : nt_success calls.third_queue.0 ≡ true
  pub link_well : calls.link_given ≡ true
  pub create_well : nt_success calls.create_link ≡ true

-- The memory is given, and all calls succeed.
pub record IsGranted {Queue : Type 0} (calls : PairCalls Queue) : Type 0 where
  pub pair_pointer : ℕ
  pub pair_there : calls.pair_memory ≡ some pair_pointer
  pub first_block : List ℕ
  pub first_there : calls.first_ring 65536 ≡ some first_block
  pub second_block : List ℕ
  pub second_there : calls.second_ring 65536 ≡ some second_block
  pub signal_there : nt_success calls.signal_lock ≡ true
  pub data_there : nt_success calls.data_lock ≡ true
  pub com_well : AllWell calls.com_calls
  pub companion_well : AllWell calls.companion_calls

given-true : {b : Bool} → b ≡ true → nt_success (given b) ≡ true
given-true h = rw h refl

excluded : {A : Type 0} → {b : Bool} → b ≡ true → b ≡ false → A
excluded h h' = absurd (cc (h, h'))

lacking : {A B : Type 0} → {o : Option B} → {b : B} → o ≡ some b → o ≡ none → A
lacking h h' = absurd (cc (h, h'))

module _ {Queue : Type 0} where
  abbrev Works : Status × Making Queue → Type 0
  Works result = result.0 ≡ success

  com_port_create-Works :
      (calls : DeviceCalls Queue) (number : ℕ) (s : Making Queue)
      → AllWell calls
      → Works (com_port_create calls number s)
  unfolding com_port_create
  com_port_create-Works calls number s w =
      call-then Works (given calls.init_given) _ _ _ _ (excluded (given-true w.init_well)) (λ _.
        call-then Works calls.assign_name _ _ _ _ (excluded w.name_well) (λ _.
          call-then Works calls.device_create _ _ _ _ (excluded w.device_well) (λ _.
            call-then Works calls.default_queue _ _ _ _ (excluded w.default_well) (λ _.
              call-then Works calls.first_queue.0 _ _ _ _ (excluded w.first_well) (λ _.
                call-then Works calls.second_queue.0 _ _ _ _ (excluded w.second_well) (λ _.
                  call-then Works calls.third_queue.0 _ _ _ _ (excluded w.third_well) (λ _.
                    call-then Works (given calls.link_given) _ _ _ _
                      (excluded (given-true w.link_well))
                      (λ _.
                        call-then Works calls.create_link _ _ _ _ (excluded w.create_well)
                          (λ _. refl)))))))))

  companion_create-Works :
      (calls : DeviceCalls Queue) (s : Making Queue)
      → AllWell calls
      → Works (companion_create calls s)
  unfolding companion_create
  companion_create-Works calls s w =
      call-then Works (given calls.init_given) _ _ _ _ (excluded (given-true w.init_well)) (λ _.
        call-then Works calls.assign_name _ _ _ _ (excluded w.name_well) (λ _.
          call-then Works calls.device_create _ _ _ _ (excluded w.device_well) (λ _.
            call-then Works calls.default_queue _ _ _ _ (excluded w.default_well) (λ _.
              call-then Works calls.first_queue.0 _ _ _ _ (excluded w.first_well) (λ _.
                call-then Works calls.second_queue.0 _ _ _ _ (excluded w.second_well) (λ _.
                  call-then Works calls.third_queue.0 _ _ _ _ (excluded w.third_well) (λ _.
                    call-then Works (given calls.link_given) _ _ _ _
                      (excluded (given-true w.link_well))
                      (λ _.
                        call-then Works calls.create_link _ _ _ _ (excluded w.create_well)
                          (λ _. refl)))))))))

  module _ (calls : PairCalls Queue) (g : IsGranted calls) (number : ℕ) where
    companion_or_back-Works : (s : Making Queue) → Works (companion_or_back calls s)
    unfolding companion_or_back
    companion_or_back-Works s =
        let ok : Works (companion_create calls.companion_calls s) =
          companion_create-Works calls.companion_calls s g.companion_well in
        rw (ok, companion_or_back) ok

    make_devices-Works : (s : Making Queue) → Works (make_devices calls number s)
    unfolding make_devices
    make_devices-Works s =
        let ok : Works (com_port_create calls.com_calls number s) =
          com_port_create-Works calls.com_calls number s g.com_well in
        rw
          (go_on_good (companion_or_back calls) (com_port_create calls.com_calls number s).0
            (com_port_create calls.com_calls number s).1 (ap nt_success ok))
          (companion_or_back-Works (com_port_create calls.com_calls number s).1)

    initialise-Works : (k : Kernel) → Works (initialise calls (started calls number k))
    unfolding initialise
    initialise-Works k =
        first-then Works calls.first_ring _ (started calls number k) refl (lacking g.first_there)
          (λ first _.
            second-then Works calls.second_ring _ _ refl (lacking g.second_there) (λ second _.
              call-then Works calls.signal_lock _ _ _ _ (excluded g.signal_there)
                (λ _. call-then Works calls.data_lock _ _ _ _ (excluded g.data_there) (λ _. refl))))

    publish-Works :
        (slot p : ℕ) (s : Making Queue) (d : Driver Queue)
        → (publish calls slot number p s d).0 ≡ success
    unfolding publish
    publish-Works slot p s d = rw (make_devices-Works s, publish) (make_devices-Works s)

    start_pair-Works :
        (slot p : ℕ) (d : Driver Queue) → (start_pair calls slot number p d).0 ≡ success
    unfolding start_pair
    start_pair-Works slot p d =
        rw (initialise-Works d.kernel, start_pair) (publish-Works slot p _ d)

  fill_slot-Works :
      (calls : PairCalls Queue)
      → IsGranted calls
      → (slot number : ℕ) (d : Driver Queue) → (fill_slot calls slot number d).0 ≡ success
  unfolding fill_slot
  fill_slot-Works calls g slot number d =
      subst
        (λ memory.
          (elim memory as (λ _. Status × Option ℕ × Driver Queue) [
            | none ↦ (insufficient_resources, none, give_back slot d)
            | some p ↦ start_pair calls slot number p d
          ]).0
          ≡ success)
        (sym g.pair_there) (start_pair-Works calls g number slot g.pair_pointer d)

  -- A number is found where one is left.
  choose_number-Works :
      (com_link comp_link : ℕ → Status) (d : Driver Queue) (n : ℕ)
      → 1 ≤ n
      → n < 256
      → is_taken com_link comp_link d n ≡ false
      → (choose_number com_link comp_link d 0).0 ≡ success
  unfolding choose_number
  choose_number-Works com_link comp_link d n low high free =
      let number : ℕ = find_free_port_number com_link comp_link d in
      elim (Bool-cases (number == 0)) [
        | inr found ↦ rw found refl
        | inl none_left ↦ absurd (
            not_all number ((==_iff number 0).0 none_left)
              (find_free_port_number-IsLeastFree com_link comp_link d))
      ]
    where
      not_all : (m : ℕ) → m ≡ 0 → IsLeastFree (is_taken com_link comp_link d) 1 255 m → ⊥
      not_all m e (inl (_, all)) = cc (all n low high, free)
      not_all m e (inr (at_least, _, _, _)) = omega arith

  -- GcomPortPairCreate with a number to choose succeeds where all memory is given and all
  -- calls for the locks and the devices succeed, an entry of the table is free, and some
  -- number from 1 to 255 is not taken.
  pub port_pair_create-Works :
      (calls : PairCalls Queue) (d : Driver Queue) (slot n : ℕ)
      → IsGranted calls
      → free_slot d.ports ≡ some slot
      → 1 ≤ n
      → n < 256
      → is_taken calls.com_link calls.comp_link d n ≡ false
      → (port_pair_create calls 0 d).0 ≡ success
  unfolding port_pair_create
  port_pair_create-Works calls d slot n g there low high free =
      let chosen : (choose_number calls.com_link calls.comp_link d 0).0 ≡ success =
        choose_number-Works calls.com_link calls.comp_link d n low high free in
      rw (there, chosen, port_pair_create) (fill_slot-Works calls g slot _ (reserve slot d))

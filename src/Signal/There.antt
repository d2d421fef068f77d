-- ===== src/Signal/There.antt =====
-- GcomSignalChanged and GcomCheckWaitMask leave the handles of the wait queues as they are: NULL, or
-- not.
use ghostcom.Base.{ℕ, ◌≡◌, refl, List, Bool-cases, inl, inr, Option, none, some, ◌==◌, bit_and}
use ghostcom.Base.{is_there}
use ghostcom.Wdf.{Wdf}
use ghostcom.Pair.{PortPair}
use ghostcom.Signal.{answer_all, signal_changed, check_wait_mask}

module _ (wdf : Wdf) where
  open wdf use {Queue}

  answer_all_there :
      (bytes : List ℕ) (queue : Option Queue)
      → is_there (answer_all wdf bytes queue).0 ≡ is_there queue
  unfolding answer_all
  answer_all_there bytes none = refl
  answer_all_there bytes (some queue) = refl

  module _ (pp : PortPair Queue) (bits : ℕ) where
    pub signal_changed_there :
        is_there (signal_changed wdf pp bits).0.signal_wait_queue ≡ is_there pp.signal_wait_queue
    unfolding signal_changed
    signal_changed_there = elim (Bool-cases pp.active) [
      | inr off ↦ rw off refl
      | inl on ↦ rw on (answer_all_there _ pp.signal_wait_queue)
    ]

    pub check_wait_mask_there :
        is_there (check_wait_mask wdf pp bits).0.wait_mask_queue ≡ is_there pp.wait_mask_queue
    unfolding check_wait_mask
    check_wait_mask_there = elim (Bool-cases pp.active) [
      | inr off ↦ rw off refl
      | inl on ↦ elim (Bool-cases (bit_and bits pp.signal_state.wait_mask == 0)) [
        | inl none_matched ↦ rw (on, none_matched) refl
        | inr matched ↦ rw (on, matched) (answer_all_there _ pp.wait_mask_queue)
      ]
    ]

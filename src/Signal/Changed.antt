-- ===== src/Signal/Changed.antt =====
-- What GcomSignalChanged and GcomCheckWaitMask do to the pair, and whom they answer.
use ghostcom.Base.{ℕ, ◌^◌, ◌<◌, ◌≡◌, refl, inl, inr, bit_and, bit_or}
use ghostcom.Base.{[], ◌++◌, append-nil, Bool-cases, true, map, ◌==◌, if◌then◌else◌}
use ghostcom.Bits.{bit_and-complement, bit_and-bit_or, bit_or-lt}
use ghostcom.Word.{add32, not32}
use ghostcom.Bytes.{put32}
use ghostcom.Wdf.{Wdf, held, requests}
use ghostcom.Pair.{PortPair, signal_bytes}
use ghostcom.Signal.{noted, answer_all, signal_changed, check_wait_mask}
use ghostcom.Signal.Answer.{answer, answer_all-map, requests-answers}

module _ (wdf : Wdf) (pp : PortPair wdf.Queue) where
  signal_changed_active :
      (bits : ℕ)
      → pp.active ≡ true
      → signal_changed wdf pp bits ≡ (
          let snapshot = noted pp.signal_state bits in
          let (queue, done) = answer_all wdf (signal_bytes snapshot) pp.signal_wait_queue in
          (
            record pp {
              signal_state = record snapshot {
                changed_mask = bit_and snapshot.changed_mask (not32 snapshot.changed_mask);
              };
              signal_wait_queue = queue;
            },
            done,
          ))
  unfolding signal_changed
  signal_changed_active bits on = rw on refl

  -- On an active pair GcomSignalChanged raises the sequence number by one (on 32 bits), answers
  -- each pending wait once, oldest first, with the state whose changed mask has the new bits,
  -- and leaves no wait pending.
  pub signal_changed_lem :
      (bits : ℕ)
      → pp.active ≡ true
      → let (pp', done) = signal_changed wdf pp bits in
        let told = noted pp.signal_state bits in
        (pp'.signal_state.sequence_number ≡ add32 pp.signal_state.sequence_number 1)
        × (bit_and told.changed_mask bits ≡ bits)
        × (done ≡ map (answer wdf (signal_bytes told)) (held wdf pp.signal_wait_queue))
        × (held wdf pp'.signal_wait_queue ≡ [])
  signal_changed_lem bits on = rw (signal_changed_active bits on) (
    refl,
    bit_and-bit_or pp.signal_state.changed_mask bits,
    (answer_all-map wdf (signal_bytes (noted pp.signal_state bits)) pp.signal_wait_queue).1,
    (answer_all-map wdf (signal_bytes (noted pp.signal_state bits)) pp.signal_wait_queue).0,
  )

  -- On an active pair, and for bits and a changed mask of 32 bits, GcomSignalChanged leaves
  -- no bit in the changed mask, whether or not a wait was pending to be told of it.
  pub signal_changed-forgets :
      (bits : ℕ)
      → pp.active ≡ true
      → pp.signal_state.changed_mask < 2 ^ 32
      → bits < 2 ^ 32
      → (signal_changed wdf pp bits).0.signal_state.changed_mask ≡ 0
  signal_changed-forgets bits on mask_in bits_in = rw (signal_changed_active bits on) (
      bit_and-complement 32 (bit_or pp.signal_state.changed_mask bits)
        (bit_or-lt 32 pp.signal_state.changed_mask bits mask_in bits_in))

  -- GcomSignalChanged changes nothing but the sequence number, the changed mask and the wait queue.
  pub signal_changed_frame :
      (bits : ℕ)
      → let pp' = (signal_changed wdf pp bits).0 in
        pp' ≡ record pp {
          signal_state = record (pp.signal_state) {
            sequence_number = pp'.signal_state.sequence_number;
            changed_mask = pp'.signal_state.changed_mask;
          };
          signal_wait_queue = pp'.signal_wait_queue;
        }
  unfolding signal_changed
  signal_changed_frame bits = elim (Bool-cases pp.active) [
    | inr off ↦ rw off refl
    | inl on ↦ rw on refl
  ]

  -- GcomCheckWaitMask changes nothing but the wait queue.
  pub check_wait_mask_frame :
      (events : ℕ)
      → (check_wait_mask wdf pp events).0
        ≡ record pp { wait_mask_queue = (check_wait_mask wdf pp events).0.wait_mask_queue }
  unfolding check_wait_mask
  check_wait_mask_frame events = elim (Bool-cases pp.active) [
    | inr off ↦ rw off refl
    | inl on ↦ elim (Bool-cases (bit_and events pp.signal_state.wait_mask == 0)) [
      | inl none_matched ↦ rw (on, none_matched) refl
      | inr matched ↦ rw (on, matched) refl
    ]
  ]

  -- On an active pair GcomCheckWaitMask answers every pending wait with the events that the mask
  -- selects, if it selects any, and otherwise none; after an answer no wait is pending.
  pub check_wait_mask_lem :
      (events : ℕ)
      → pp.active ≡ true
      → let (pp', done) = check_wait_mask wdf pp events in
        let matched = bit_and events pp.signal_state.wait_mask in
        let waits = held wdf pp.wait_mask_queue in
        (done ≡ (if matched == 0 then [] else map (answer wdf (put32 matched [])) waits))
        × (held wdf pp'.wait_mask_queue ≡ (if matched == 0 then waits else []))
  unfolding check_wait_mask
  check_wait_mask_lem events on =
      elim (Bool-cases (bit_and events pp.signal_state.wait_mask == 0)) [
        | inl none_matched ↦ rw (on, none_matched) (refl, refl)
        | inr matched ↦
            let all =
              answer_all-map wdf (put32 (bit_and events pp.signal_state.wait_mask) [])
                pp.wait_mask_queue in
            rw (on, matched) (all.1, all.0)
      ]

  -- Each wait is answered or left.
  pub check_wait_mask-once :
      (events : ℕ)
      → let (pp', done) = check_wait_mask wdf pp events in
        requests done ++ held wdf pp'.wait_mask_queue ≡ held wdf pp.wait_mask_queue
  unfolding check_wait_mask
  check_wait_mask-once events = elim (Bool-cases pp.active) [
    | inr off ↦ rw off refl
    | inl on ↦ elim (Bool-cases (bit_and events pp.signal_state.wait_mask == 0)) [
      | inl none_matched ↦ rw (on, none_matched) refl
      | inr matched ↦
          let bytes = put32 (bit_and events pp.signal_state.wait_mask) [] in
          let all = answer_all-map wdf bytes pp.wait_mask_queue in
          rw (on, matched, all.1, all.0, append-nil)
            (requests-answers wdf bytes (held wdf pp.wait_mask_queue))
    ]
  ]

  pub signal_changed-once :
      (bits : ℕ)
      → let (pp', done) = signal_changed wdf pp bits in
        requests done ++ held wdf pp'.signal_wait_queue ≡ held wdf pp.signal_wait_queue
  unfolding signal_changed
  signal_changed-once bits = elim (Bool-cases pp.active) [
    | inr off ↦ rw off refl
    | inl on ↦
        let bytes = signal_bytes (noted pp.signal_state bits) in
        let all = answer_all-map wdf bytes pp.signal_wait_queue in
        rw (on, all.1, all.0, append-nil)
          (requests-answers wdf bytes (held wdf pp.signal_wait_queue))
  ]

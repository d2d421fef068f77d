-- ===== src/Signal.antt =====
-- driver/src/portpair.c: GcomSignalChanged and GcomCheckWaitMask.
pub mod Answer
pub mod Changed
pub mod There
use ghostcom.Base.{ℕ, zero, suc, Bool, true, false, not, ◌||◌, Option, none, some, List, [], ◌∷◌}
use ghostcom.Base.{bit_and, bit_or, ◌==◌, if◌then◌else◌, length}
use ghostcom.Word.{add32, not32}
use ghostcom.Bytes.{put32}
use ghostcom.Status.{nt_success, success}
use ghostcom.Wdf.{Wdf, Completion, complete, complete_bytes}
use ghostcom.Pair.{PortPair, SignalState, signal_bytes}

-- What GcomSignalChanged records under SignalLock.
abbrev pub noted : SignalState → ℕ → SignalState
noted s changed_bits = record s {
  sequence_number = add32 s.sequence_number 1;
  changed_mask = bit_or s.changed_mask changed_bits;
}

module _ (wdf : Wdf) where
  open wdf use {Request, Queue, pending, retrieve_next, output_buffer}

  -- The loop that answers every pending wait with the same bytes, with fuel for its rounds.
  answer_loop : ℕ → List ℕ → Queue → Queue × List (Completion Request)
  answer_loop zero bytes queue = (queue, [])
  answer_loop (suc fuel) bytes queue = elim (retrieve_next queue) [
    | none ↦ (queue, [])
    | some (request, rest) ↦
        let (st, len) = output_buffer request (length bytes) in
        let (queue', done) = answer_loop fuel bytes rest in
        elim (nt_success st) [
          | true ↦ (queue', complete_bytes request success (length bytes) bytes ∷ done)
          | false ↦ (queue', complete request st ∷ done)
        ]
  ]

  -- The loops of the two functions: no more rounds are made than there are requests. A NULL
  -- handle is passed over.
  pub answer_all : List ℕ → Option Queue → Option Queue × List (Completion Request)
  unfolding answer_loop
  answer_all bytes none = (none, [])
  answer_all bytes (some queue) =
      let (queue', done) = answer_loop (suc (length (pending queue))) bytes queue in
      (some queue', done)

  -- GcomSignalChanged
  pub signal_changed : PortPair Queue → ℕ → PortPair Queue × List (Completion Request)
  signal_changed pp changed_bits =
      if not pp.active
      then (pp, [])
      else let snapshot = noted pp.signal_state changed_bits in
        let (queue, done) = answer_all (signal_bytes snapshot) pp.signal_wait_queue in
        (
          record pp {
            signal_state = record snapshot {
              changed_mask = bit_and snapshot.changed_mask (not32 snapshot.changed_mask);
            };
            signal_wait_queue = queue;
          },
          done,
        )

  -- GcomCheckWaitMask
  pub check_wait_mask : PortPair Queue → ℕ → PortPair Queue × List (Completion Request)
  check_wait_mask pp events =
      if not pp.active
      then (pp, [])
      else let matched_events = bit_and events pp.signal_state.wait_mask in
        if matched_events == 0
        then (pp, [])
        else let (queue, done) = answer_all (put32 matched_events []) pp.wait_mask_queue in
          (record pp { wait_mask_queue = queue }, done)

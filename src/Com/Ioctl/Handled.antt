-- ===== src/Com/Ioctl/Handled.antt =====
-- What a request of GcomComEvtIoctl leaves alone, and that it is completed once: the operations.
use mathlib.Core.List.{Perm, perm_middle}
use mathlib.Core.List.Perm
use ghostcom.Base.{ℕ, Bool, Option, ◌≡◌, refl, ap, ap₂, sym, ◌∙◌, subst, inl, inr}
use ghostcom.Base.{is_there, Bool-cases, List, [], ◌∷◌, ◌++◌, append_assoc, length}
use ghostcom.Status.{nt_success, success}
use ghostcom.Ring.{Ring}
use ghostcom.Wdf.{Wdf, Completion, complete, held, requests, requests-append}
use ghostcom.Pair.{PortPair, SignalState}
use ghostcom.Signal.{signal_changed}
use ghostcom.Signal.Changed.{signal_changed_frame, signal_changed-once}
use ghostcom.Signal.There.{signal_changed_there}
use ghostcom.Buffers.{with_input, with_output}
use ghostcom.Com.Settings.{tell}

-- All of a pair but its signal state, its waits, its timeouts and its counts.
abbrev pub Data : Type 0 → Type 0
Data Queue =
    Ring
    × Ring
    × Option Queue
    × Option Queue
    × Option Queue
    × Option Queue
    × Bool
    × ℕ
    × ℕ
    × ℕ
    × ℕ
    × ℕ

abbrev pub data_of : {Queue : Type 0} → PortPair Queue → Data Queue
data_of pp = (
  pp.com_to_companion, pp.companion_to_com, pp.com_read_queue, pp.com_write_queue,
  pp.comp_read_queue, pp.comp_write_queue, pp.active, pp.com_side_open, pp.companion_side_open,
  pp.ref_count, pp.port_number, pp.companion_index,
)

module _ (wdf : Wdf) where
  open wdf use {Request, Queue, pending, input_buffer, output_buffer}

  -- The requests that wait for a signal or an event.
  abbrev pub waits : PortPair Queue → List Request
  waits pp = held wdf pp.signal_wait_queue ++ held wdf pp.wait_mask_queue

  -- The rings, their queues, the flags, the references and the numbers are left alone, and the
  -- handles of the wait queues stay NULL or not; the request and those that waited are completed
  -- once or wait.
  pub record IsHandled (pp : PortPair Queue) (r : Request)
      (out : PortPair Queue × List (Completion Request)) : Type 0 where
    pub kept : data_of out.0 ≡ data_of pp
    pub signals_there : is_there out.0.signal_wait_queue ≡ is_there pp.signal_wait_queue
    pub masks_there : is_there out.0.wait_mask_queue ≡ is_there pp.wait_mask_queue
    pub once : Perm (requests out.1 ++ waits out.0) (r ∷ waits pp)

  module _ (pp : PortPair Queue) (r : Request) where
    pub answered : (c : Completion Request) → c.request ≡ r → IsHandled pp r (pp, c ∷ [])
    answered c e = record {
      kept = refl;
      signals_there = refl;
      masks_there = refl;
      once = subst (λ x. Perm (c.request ∷ waits pp) (x ∷ waits pp)) e (Perm.refl _);
    }

    pub with_output-IsHandled : (bytes : List ℕ) → IsHandled pp r (with_output wdf bytes pp r)
    unfolding with_output
    with_output-IsHandled bytes =
        elim (Bool-cases (nt_success (output_buffer r (length bytes)).0)) [
          | inl ok ↦ rw (ok, with_output) (answered _ refl)
          | inr bad ↦ rw (bad, with_output) (answered _ refl)
        ]

    pub with_input-IsHandled :
        (size : ℕ) (f : List ℕ → PortPair Queue × List (Completion Request))
        → ((bytes : List ℕ) → IsHandled pp r (f bytes))
        → IsHandled pp r (with_input wdf size f pp r)
    unfolding with_input
    with_input-IsHandled size f h = elim (Bool-cases (nt_success (input_buffer r size).0)) [
      | inl ok ↦ rw (ok, with_input) (h (input_buffer r size).1)
      | inr bad ↦ rw (bad, with_input) (answered _ refl)
    ]

    -- The waits that are told and the request at the end make up the log.
    pub tell-IsHandled :
        (state : SignalState) (bits : ℕ) → IsHandled pp r (tell wdf pp state bits r)
    tell-IsHandled state bits = record {
      kept = ap data_of frame;
      signals_there = signal_changed_there wdf (record pp { signal_state = state }) bits;
      masks_there = ap (λ p. is_there p.wait_mask_queue) frame;
      once =
          rw
            (
              requests-append told.1 (complete r success ∷ []),
              append_assoc (requests told.1) (r ∷ []) (waits told.0),
            )
            (Perm.trans (perm_middle (requests told.1) (waits told.0))
              (Perm.cons r (subst (λ l. Perm l (waits pp)) (sym same) (Perm.refl _))));
    }
      where
        told : PortPair Queue × List (Completion Request)
        told = signal_changed wdf (record pp { signal_state = state }) bits

        frame : told.0 ≡ record pp {
          signal_state = record state {
            sequence_number = told.0.signal_state.sequence_number;
            changed_mask = told.0.signal_state.changed_mask;
          };
          signal_wait_queue = told.0.signal_wait_queue;
        }
        frame = signal_changed_frame wdf (record pp { signal_state = state }) bits

        same : requests told.1 ++ waits told.0 ≡ waits pp
        same =
            sym (
              append_assoc (requests told.1) (held wdf told.0.signal_wait_queue)
                (held wdf told.0.wait_mask_queue))
            ∙ ap₂ ◌++◌ (signal_changed-once wdf (record pp { signal_state = state }) bits)
                (ap (λ p. held wdf p.wait_mask_queue) frame)

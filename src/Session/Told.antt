-- ===== src/Session/Told.antt =====
-- What an IOCTL does to a calm pair, step by step: it purges, tells those who wait, and is completed.
use ghostcom.Base.{ℕ, ◌≡◌, sym, ap, subst, ◌∙◌, arith, true, false, Bool-cases, inl, inr}
use ghostcom.Base.{List, [], ◌∷◌, ◌++◌, is_there, total, total-append, total-Perm}
use ghostcom.Status.{nt_success}
use ghostcom.Wdf.{Wdf, Completion, complete, held, requests, requests-append}
use ghostcom.Pair.{PortPair}
use ghostcom.Buffers.{with_input}
use ghostcom.Signal.{signal_changed}
use ghostcom.Signal.Changed.{signal_changed_frame, signal_changed-once}
use ghostcom.Signal.There.{signal_changed_there}
use ghostcom.Com.Ioctl.Handled.{IsHandled}
use ghostcom.Session.Calm.{IsIdle, IsCalm, IsKept, load, identity_of}

module _ (wdf : Wdf) (pp : PortPair wdf.Queue) where
  open wdf use {Request, Queue, input_buffer}

  -- An IOCTL's input is read, or it is completed with the error.
  pub with_input_cases :
      (P : PortPair Queue × List (Completion Request) → Type 0) (request : Request) (size : ℕ)
      (f : List ℕ → PortPair Queue × List (Completion Request))
      → (nt_success (input_buffer request size).0 ≡ true → P (f (input_buffer request size).1))
      → (nt_success (input_buffer request size).0 ≡ false
          → P (pp, complete request (input_buffer request size).0 ∷ []))
      → P (with_input wdf size f pp request)
  unfolding with_input
  with_input_cases P request size f good bad =
      elim (Bool-cases (nt_success (input_buffer request size).0)) [
        | inl ok ↦ rw (ok, with_input) (good ok)
        | inr h ↦ rw (h, with_input) (bad h)
      ]

  module _ {came gone : List Request} (after : PortPair Queue)
      (log : List (Completion Request)) where
    -- The waits for a signal are told after that.
    pub signal_changed-IsKept :
        (bits : ℕ)
        → IsKept wdf pp came gone (after, log)
        → IsKept wdf pp came gone
            ((signal_changed wdf after bits).0, log ++ (signal_changed wdf after bits).1)
    signal_changed-IsKept bits k = record {
      calm =
          subst (λ p. IsCalm wdf p) (sym frame)
            (record {
              to_com = k.calm.to_com;
              to_companion = k.calm.to_companion;
              com_writes = k.calm.com_writes;
              comp_writes = k.calm.comp_writes;
              signals = signal_changed_there wdf after bits ∙ k.calm.signals;
              masks = k.calm.masks;
            });
      same = ap (identity_of wdf) frame ∙ k.same;
      once = λ weight. omega (
        arith,
        k.once weight,
        ap (load wdf weight) frame,
        ap (total weight) (requests-append log told.1),
        total-append weight (requests log) (requests told.1),
        ap (total weight) (signal_changed-once wdf after bits),
        total-append weight (requests told.1) (held wdf told.0.signal_wait_queue),
      );
    }
      where
        told : PortPair Queue × List (Completion Request)
        told = signal_changed wdf after bits

        frame : told.0 ≡ record after {
          signal_state = record (after.signal_state) {
            sequence_number = told.0.signal_state.sequence_number;
            changed_mask = told.0.signal_state.changed_mask;
          };
          signal_wait_queue = told.0.signal_wait_queue;
        }
        frame = signal_changed_frame wdf after bits

  module _ {gone : List Request} (after : PortPair Queue) (log : List (Completion Request)) where
    -- The request that came is completed at last.
    pub completed-IsKept :
        (c : Completion Request)
        → IsKept wdf pp [] gone (after, log)
        → IsKept wdf pp (c.request ∷ []) gone (after, log ++ (c ∷ []))
    completed-IsKept c k = record {
      calm = k.calm;
      same = k.same;
      once = λ weight. omega (
        arith,
        k.once weight,
        ap (total weight) (requests-append log (c ∷ [])),
        total-append weight (requests log) (c.request ∷ []),
      );
    }

  -- An IOCTL that moves nothing.
  pub IsHandled-IsKept :
      (request : Request) (out : PortPair Queue × List (Completion Request))
      → IsCalm wdf pp
      → IsHandled wdf pp request out
      → IsKept wdf pp (request ∷ []) [] out
  IsHandled-IsKept request out calm h = record {
    calm = record {
      to_com = subst (λ d. IsIdle wdf d.1 d.2) (sym h.kept) calm.to_com;
      to_companion = subst (λ d. IsIdle wdf d.0 d.4) (sym h.kept) calm.to_companion;
      com_writes = ap (λ d. is_there d.3) h.kept ∙ calm.com_writes;
      comp_writes = ap (λ d. is_there d.5) h.kept ∙ calm.comp_writes;
      signals = h.signals_there ∙ calm.signals;
      masks = h.masks_there ∙ calm.masks;
    };
    same = ap (λ d. (d.10, d.11, d.6, d.7, d.8, d.9, d.0.size, d.1.size)) h.kept;
    once = λ weight. omega (
      arith,
      ap (λ d. total weight (held wdf d.2)) h.kept,
      ap (λ d. total weight (held wdf d.3)) h.kept,
      ap (λ d. total weight (held wdf d.4)) h.kept,
      ap (λ d. total weight (held wdf d.5)) h.kept,
      total-Perm weight h.once,
      total-append weight (requests out.1)
          (held wdf out.0.signal_wait_queue ++ held wdf out.0.wait_mask_queue),
      total-append weight (held wdf out.0.signal_wait_queue) (held wdf out.0.wait_mask_queue),
      total-append weight (held wdf pp.signal_wait_queue) (held wdf pp.wait_mask_queue),
    );
  }

-- ===== src/Signal/Answer.antt =====
-- Every pending wait is answered once, in order, and none is left.
use ghostcom.Base.{ℕ, zero, suc, ◌<◌, ◌≡◌, refl, ap, ap₂, sym, arith, inl, inr}
use ghostcom.Base.{List, [], ◌∷◌, Bool-cases, true, false, none, some, Option, length, map}
use ghostcom.Status.{nt_success, success}
use ghostcom.Wdf.{Wdf, Completion, complete, complete_bytes, queue_cases, held, requests}
use ghostcom.Signal.{answer_loop, answer_all}

module _ (wdf : Wdf) where
  open wdf use {Request, Queue, pending, output_buffer}

  -- The answer that one request gets: the bytes, if its buffer has room for them.
  pub answer : List ℕ → Request → Completion Request
  answer bytes request = elim (nt_success (output_buffer request (length bytes)).0) [
    | true ↦ complete_bytes request success (length bytes) bytes
    | false ↦ complete request (output_buffer request (length bytes)).0
  ]

  pub answer_fits :
      (bytes : List ℕ) (request : Request)
      → nt_success (output_buffer request (length bytes)).0 ≡ true
      → answer bytes request ≡ complete_bytes request success (length bytes) bytes
  unfolding answer
  answer_fits bytes request ok = rw (ok, answer) refl

  answer_short :
      (bytes : List ℕ) (request : Request)
      → nt_success (output_buffer request (length bytes)).0 ≡ false
      → answer bytes request ≡ complete request (output_buffer request (length bytes)).0
  unfolding answer
  answer_short bytes request bad = rw (bad, answer) refl

  answer_loop_stop :
      (fuel : ℕ) (bytes : List ℕ) (queue : Queue)
      → wdf.retrieve_next queue ≡ none
      → answer_loop wdf (suc fuel) bytes queue ≡ (queue, [])
  unfolding answer_loop
  answer_loop_stop fuel bytes queue e = rw (e, answer_loop) refl

  answer_loop_step :
      (fuel : ℕ) (bytes : List ℕ) (queue : Queue) (request : Request) (rest : Queue)
      → wdf.retrieve_next queue ≡ some (request, rest)
      → answer_loop wdf (suc fuel) bytes queue ≡ (
          let (queue', done) = answer_loop wdf fuel bytes rest in
          (queue', answer bytes request ∷ done))
  unfolding answer_loop
  answer_loop_step fuel bytes queue request rest e =
      let (queue', done) = answer_loop wdf fuel bytes rest in
      elim (Bool-cases (nt_success (output_buffer request (length bytes)).0)) [
        | inl ok ↦
            rw (e, ok, answer_loop)
              (ap (λ c. (queue', c ∷ done)) (sym (answer_fits bytes request ok)))
        | inr bad ↦
            rw (e, bad, answer_loop)
              (ap (λ c. (queue', c ∷ done)) (sym (answer_short bytes request bad)))
      ]

  answer_loop-map :
      (fuel : ℕ) (bytes : List ℕ) (queue : Queue)
      → length (pending queue) < fuel
      → let (queue', done) = answer_loop wdf fuel bytes queue in
        (pending queue' ≡ []) × (done ≡ map (answer bytes) (pending queue))
  answer_loop-map zero bytes queue h = absurd (omega arith)
  answer_loop-map (suc fuel) bytes queue h = elim (queue_cases wdf queue) [
    | inl (nobody, e) ↦ rw (answer_loop_stop fuel bytes queue e) (nobody, rw nobody refl)
    | inr (request, rest, e, here) ↦
        let (none_left, served) = answer_loop-map fuel bytes rest (omega (arith, ap length here)) in
        rw (answer_loop_step fuel bytes queue request rest e, here)
          (none_left, ap (λ t. answer bytes request ∷ t) served)
  ]

  -- The loops of GcomSignalChanged and GcomCheckWaitMask leave no wait pending, and complete
  -- each once, oldest first, with the bytes if its buffer has room for them and the error
  -- otherwise.
  pub answer_all-map :
      (bytes : List ℕ) (queue : Option Queue)
      → let (queue', done) = answer_all wdf bytes queue in
        (held wdf queue' ≡ []) × (done ≡ map (answer bytes) (held wdf queue))
  unfolding answer_all
  answer_all-map bytes none = (refl, refl)
  answer_all-map bytes (some queue) =
      answer_loop-map (suc (length (pending queue))) bytes queue (omega arith)

  -- Each wait is in one answer.
  pub requests-answers :
      (bytes : List ℕ) (waits : List Request) → requests (map (answer bytes) waits) ≡ waits
  requests-answers bytes [] = refl
  requests-answers bytes (r ∷ waits) =
      ap₂ ◌∷◌
        (elim (Bool-cases (nt_success (output_buffer r (length bytes)).0)) [
          | inl ok ↦ ap (λ c. c.request) (answer_fits bytes r ok)
          | inr bad ↦ ap (λ c. c.request) (answer_short bytes r bad)
        ])
        (requests-answers bytes waits)

-- ===== src/Buffers.antt =====
-- The two shapes that most IOCTL handlers of comport.c and companion.c have: a request that brings
-- a structure, and one that takes a structure away.
use ghostcom.Base.{ℕ, true, false, List, [], ◌∷◌, length}
use ghostcom.Status.{nt_success, success}
use ghostcom.Wdf.{Wdf, Completion, complete, complete_bytes}
use ghostcom.Pair.{PortPair}

module _ (wdf : Wdf) where
  open wdf use {Request, Queue, output_buffer, input_buffer}

  -- The handler `f` on the bytes of an input buffer of at least `size` bytes, or the error.
  unfoldable pub with_input :
      ℕ
      → (List ℕ → PortPair Queue × List (Completion Request))
      → PortPair Queue
      → Request
      → PortPair Queue × List (Completion Request)
  with_input size f pp request = elim (nt_success (input_buffer request size).0) [
    | true ↦ f (input_buffer request size).1
    | false ↦ (pp, complete request (input_buffer request size).0 ∷ [])
  ]

  -- The bytes are put in the output buffer if they fit, or the error.
  unfoldable pub with_output :
      List ℕ → PortPair Queue → Request → PortPair Queue × List (Completion Request)
  with_output bytes pp request = elim (nt_success (output_buffer request (length bytes)).0) [
    | true ↦ (pp, complete_bytes request success (length bytes) bytes ∷ [])
    | false ↦ (pp, complete request (output_buffer request (length bytes)).0 ∷ [])
  ]

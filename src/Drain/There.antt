-- ===== src/Drain/There.antt =====
-- The drains leave the handles of their queues as they are: NULL, or not.
use ghostcom.Base.{
  ℕ, zero, suc, ◌≡◌, refl, ◌∙◌, Bool-cases, Option-cases, inl, inr, Option, none, some, length, ltb,
  is_there,
}
use ghostcom.Status.{nt_success}
use ghostcom.Word.{ulong}
use ghostcom.Ring.{Ring, write, write_available}
use ghostcom.Wdf.{Wdf}
use ghostcom.Drain.{drain_peer, drain_writes, drain_writes_to_ring}

module _ (wdf : Wdf) where
  open wdf use {Request, Queue, pending, retrieve_next, input_buffer}

  pub drain_peer_there :
      (ring : Ring) (peer : Option Queue) → is_there (drain_peer wdf ring peer).1 ≡ is_there peer
  unfolding drain_peer
  drain_peer_there ring none = refl
  drain_peer_there ring (some queue) = refl

  drain_writes_there :
      (fuel : ℕ) (ring : Ring) (queue : Queue) (peer : Option Queue)
      → is_there (drain_writes wdf fuel ring queue peer).2 ≡ is_there peer
  unfolding drain_writes
  drain_writes_there zero ring queue peer = refl
  drain_writes_there (suc fuel) ring queue peer = elim (Bool-cases (ltb 0 (write_available ring))) [
    | inr full ↦ rw (full, drain_writes) refl
    | inl room ↦ elim (Option-cases (retrieve_next queue)) [
      | inl e ↦ rw (room, e, drain_writes) refl
      | inr ((request, rest), e) ↦ elim (Bool-cases (nt_success (input_buffer request 1).0)) [
        | inr bad ↦ rw (room, e, bad, drain_writes) (drain_writes_there fuel ring rest peer)
        | inl ok ↦
            let bytes = (input_buffer request 1).1 in
            let after = (write ring bytes (ulong (length bytes))).1 in
            elim (Bool-cases (ltb 0 (write ring bytes (ulong (length bytes))).0)) [
              | inr nothing ↦ rw (room, e, ok, nothing, drain_writes) refl
              | inl put ↦
                  rw (room, e, ok, put, drain_writes)
                    (drain_writes_there fuel (drain_peer wdf after peer).0 rest
                        (drain_peer wdf after peer).1
                      ∙ drain_peer_there after peer)
            ]
      ]
    ]
  ]

  pub drain_writes_to_ring_there :
      (ring : Ring) (queue : Queue) (peer : Option Queue)
      → is_there (drain_writes_to_ring wdf ring queue peer).2 ≡ is_there peer
  unfolding drain_writes_to_ring
  drain_writes_to_ring_there ring queue peer =
      drain_writes_there (suc (length (pending queue))) ring queue peer

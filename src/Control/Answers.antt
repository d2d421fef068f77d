-- ===== src/Control/Answers.antt =====
-- What the control device answers to a request to destroy a pair.
use ghostcom.Base.{ℕ, ◌≡◌, ap, ◌∙◌, true, false, ◌==◌, Option, none, some, List}
use ghostcom.Status.{nt_success, success, not_found}
use ghostcom.Word.{sub32}
use ghostcom.Bytes.{get32}
use ghostcom.Wdf.{Wdf, Completion, complete}
use ghostcom.Pair.{PortPair}
use ghostcom.Life.{pair_destroy}
use ghostcom.Table.{Driver, Slot}
use ghostcom.Table.Sound.{points}
use ghostcom.Table.Well.{IsWell}
use ghostcom.Destroy.{DestroyCalls, port_pair_destroy}
use ghostcom.Destroy.Table.{ports_after, port_pair_destroy-pair_destroy}
use ghostcom.Control.{claim, handle_destroy_port}
use ghostcom.Control.Claims.{Claims, missing, claimed, claim-Claims}

module _ (wdf : Wdf) (calls : DestroyCalls) (d : Driver wdf.Queue) (request : wdf.Request) where
  open wdf use {Queue, Request, input_buffer}

  -- The answer to a request for an index: no pair of the table has it and nothing changes, or a
  -- pair that has it leaves the table and is destroyed.
  pub data Destroys (index : ℕ) : Driver Queue × Completion Request → Type 0 where
    not_there :
        ((p : ℕ) (pp : PortPair Queue)
          → points p d.ports ≡ true
          → d.heap p ≡ some pp
          → (pp.companion_index == index) ≡ false)
        → Destroys index (d, complete request not_found)
    gone :
        {d' : Driver Queue}
        → (p : ℕ) (pp : PortPair Queue) → points p d.ports ≡ true
        → d.heap p ≡ some pp
        → pp.companion_index ≡ index
        → points p d'.ports ≡ false
        → d'.heap p ≡ pair_destroy (record pp { active = false })
        → Destroys index (d', complete request success)

  from_claim :
      (index : ℕ) (result : Option (ℕ × PortPair Queue) × List Slot)
      → Claims index d.heap d.ports result
      → Destroys index (elim result.0 [
        | none ↦ (d, complete request not_found)
        | some (p, pp) ↦ (
          port_pair_destroy calls p
              (record pp { active = false })
              (record d { ports = result.1; port_count = sub32 d.port_count 1 }),
          complete request success,
        )
      ])
  from_claim index _ (missing h) = not_there h
  from_claim index _
        (claimed {p} {pp} {rest} there active named in_table out long count sound less) =
      let left : Driver Queue = record d { ports = rest; port_count = sub32 d.port_count 1 } in
      gone p pp in_table there named
        (ap (points p) (ports_after calls p (record pp { active = false }) left out).0 ∙ out)
        (port_pair_destroy-pair_destroy calls p (record pp { active = false }) left)

  -- A request to destroy a pair, with an input buffer that is long enough and a table that is
  -- well, has one of two answers: no pair of the table has the index, nothing changes and the
  -- status is STATUS_NOT_FOUND; or a pair of the table that has it is in the table no more
  -- and is destroyed, and the status is STATUS_SUCCESS.
  pub handle_destroy_port-Destroys :
      IsWell d
      → nt_success (input_buffer request 4).0 ≡ true
      → Destroys (get32 (input_buffer request 4).1 0) (handle_destroy_port wdf calls d request)
  unfolding handle_destroy_port
  handle_destroy_port-Destroys w h =
      let index : ℕ = get32 (input_buffer request 4).1 0 in
      rw h
        (from_claim index (claim index d.heap d.ports) (claim-Claims index d.heap d.ports w.sound))

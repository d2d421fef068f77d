-- ===== src/Control/Keeps.antt =====
-- The port table between two requests to the control device.
use mathlib.Core.Path.{fun_ext}
use ghostcom.Base.{
  either_way, ℕ, ◌≡◌, refl, sym, ap, subst, ◌∙◌, arith, inl, inr, true, false, not, Bool-cases,
  ◌==◌, Option, none, some, List, length,
}
use ghostcom.Status.{Status, nt_success, success, not_found, invalid_device_request}
use ghostcom.Word.{sub32}
use ghostcom.Wdf.{Wdf, Completion, complete}
use ghostcom.Bytes.{get32}
use ghostcom.Pair.{PortPair}
use ghostcom.Life.{pair_destroy}
use ghostcom.Table.{
  Driver, Slot, pointer, put, free_slot, in_use, is_taken, choose_number, find_free_port_number,
}
use ghostcom.Table.Slots.{occupied, IsFree, free_slot-IsFree, length-set_slot}
use ghostcom.Table.Numbers.{IsLeastFree, find_free_port_number-IsLeastFree}
use ghostcom.Table.Sound.{
  numbered, points, IsSound, IsSound-put, some_live-put, points_fresh, put-same,
}
use ghostcom.Table.Well.{IsWell, few, few_lt}
use ghostcom.Table.Filled.{IsSound-set_slot}
use ghostcom.Create.{PairCalls, port_pair_create}
use ghostcom.Create.Outcome.{IsRestored, filled_in}
use ghostcom.Create.Promise.{Creates, create_failed, create_worked, port_pair_create-Creates}
use ghostcom.Destroy.{DestroyCalls, port_pair_destroy}
use ghostcom.Destroy.Table.{heap_after, ports_after}
use ghostcom.Control.{
  claim, ControlIoctl, create_port, destroy_port, list_ports, get_version, other,
  handle_create_port, handle_destroy_port, handle_list_ports, handle_get_version,
  control_io_device_control,
}
use ghostcom.Control.Claims.{Claims, claimed, claim-Claims}

module _ {Queue : Type 0} (d : Driver Queue) where
  -- A chosen number is no active pair's.
  module _ (com_link comp_link : ℕ → Status) where
    free_of_least :
        (n : ℕ)
        → (n == 0) ≡ false
        → IsLeastFree (is_taken com_link comp_link d) 1 255 n
        → in_use d n ≡ false
    unfolding is_taken
    free_of_least n some_number (inl (zero_there, _)) = absurd (ground arith)
    free_of_least n some_number (inr (_, _, free, _)) = ground arith

    abbrev IsOurs : Status × ℕ → Type 0
    IsOurs chosen = nt_success chosen.0 ≡ true → in_use d chosen.1 ≡ false

    choose_number-IsOurs : (requested : ℕ) → IsOurs (choose_number com_link comp_link d requested)
    unfolding choose_number
    choose_number-IsOurs requested = elim (Bool-cases (requested == 0)) [
      | inl any ↦
          let number : ℕ = find_free_port_number com_link comp_link d in
          rw any (elim (Bool-cases (number == 0)) [
            | inl none_left ↦ rw none_left (λ h. absurd (cc h))
            | inr found ↦ rw found (λ _.
                free_of_least number found (find_free_port_number-IsLeastFree com_link comp_link d))
          ])
      | inr one ↦ rw one (elim (Bool-cases (in_use d requested)) [
        | inl used ↦ rw used (λ h. absurd (cc h))
        | inr free ↦ rw free (elim (Bool-cases (nt_success (com_link requested))) [
          | inl stale ↦ rw stale (λ h. absurd (cc h))
          | inr fine ↦ rw fine (λ _. free)
        ])
      ])
    ]

  -- A failed creation leaves the table well, and a new pair too.
  IsRestored-IsWell : {d' : Driver Queue} → IsRestored d d' → IsWell d → IsWell d'
  IsRestored-IsWell {d'} r w =
      let heaps : d'.heap ≡ d.heap = fun_ext r.same_pairs in
      record {
        long = ap length r.same_ports ∙ w.long;
        counted = r.same_count ∙ (w.counted ∙ ap occupied (sym r.same_ports));
        sound =
            subst (λ heap. IsSound heap d'.ports) (sym heaps)
              (subst (λ ports. IsSound d.heap ports) (sym r.same_ports) w.sound);
      }

  filled_in-IsWell :
      (calls : PairCalls Queue) (slot number p : ℕ) (first second : List ℕ)
      → free_slot d.ports ≡ some slot
      → d.heap p ≡ none
      → in_use d number ≡ false
      → IsWell d
      → IsWell (filled_in calls slot number d p first second)
  unfolding in_use
  filled_in-IsWell calls slot number p first second e fresh free w =
      let f : IsFree d.ports slot = free_slot-IsFree d.ports slot e in
      let apart : points p d.ports ≡ false = points_fresh d.heap p d.ports fresh w.sound in
      record {
        long = length-set_slot slot (pointer p) d.ports ∙ w.long;
        counted = omega (arith, f.filled (pointer p) (λ h. absurd (cc h)), w.counted, few d w);
        sound =
            IsSound-set_slot _ p _ (put-same d.heap p _) refl d.ports slot e
              (some_live-put d.heap p _ (numbered number) d.ports apart ∙ free)
              (IsSound-put d.heap p _ d.ports apart w.sound);
      }

module _ {Queue : Type 0} (calls : PairCalls Queue) (requested : ℕ) (d : Driver Queue)
    (fresh : (p : ℕ) → calls.pair_memory ≡ some p → d.heap p ≡ none) where
  created_IsWell :
      {result : Status × Option ℕ × Driver Queue}
      → Creates calls requested d result
      → IsWell d
      → IsWell result.2
  created_IsWell (create_failed bad r) w = IsRestored-IsWell d r w
  created_IsWell (create_worked {slot} {number} {p} {first} {second} e c given_p e1 e2) w =
      let ours : in_use d number ≡ false =
        subst (λ chosen. IsOurs d calls.com_link calls.comp_link chosen) c
          (choose_number-IsOurs d calls.com_link calls.comp_link requested) refl in
      filled_in-IsWell d calls slot number p first second e (fresh p given_p) ours w

  pub port_pair_create-IsWell : IsWell d → IsWell (port_pair_create calls requested d).2
  port_pair_create-IsWell w =
      created_IsWell (port_pair_create-Creates calls requested d (few_lt d w) fresh) w

module _ {Queue : Type 0} (calls : DestroyCalls) (index : ℕ) (d : Driver Queue) where
  -- The table after a claimed pair is destroyed.
  destroyed_IsWell :
      (p : ℕ) (pp : PortPair Queue) (rest : List Slot)
      → Claims index d.heap d.ports (some (p, pp), rest)
      → IsWell d
      → IsWell (
          port_pair_destroy calls p
            (record pp { active = false })
            (record d { ports = rest; port_count = sub32 d.port_count 1 }))
  destroyed_IsWell p pp rest (claimed there active named in_table out long count sound less) w =
      let gone : PortPair Queue = record pp { active = false } in
      let left : Driver Queue = record d { ports = rest; port_count = sub32 d.port_count 1 } in
      let (same_ports, same_count) = ports_after calls p gone left out in
      record {
        long = ap length same_ports ∙ (long ∙ w.long);
        counted =
            same_count ∙ (omega (arith, count, w.counted, few d w) ∙ ap occupied (sym same_ports));
        sound =
            subst (λ heap. IsSound heap (port_pair_destroy calls p gone left).ports)
              (sym (heap_after calls p gone left))
              (subst (λ ports. IsSound (put d.heap p (pair_destroy gone)) ports) (sym same_ports)
                (IsSound-put d.heap p (pair_destroy gone) rest out sound));
      }

module _ (wdf : Wdf) (creating : PairCalls wdf.Queue) (destroying : DestroyCalls)
    (d : Driver wdf.Queue) (fresh : (p : ℕ) → creating.pair_memory ≡ some p → d.heap p ≡ none)
    (request : wdf.Request) where
  abbrev Kept : Driver wdf.Queue × Completion wdf.Request → Type 0
  Kept result = IsWell result.0

  handle_create_port-IsWell : IsWell d → IsWell (handle_create_port wdf creating d request).0
  unfolding handle_create_port
  handle_create_port-IsWell w =
      let created : IsWell
          (port_pair_create creating (get32 (wdf.input_buffer request 4).1 0) d).2 =
        port_pair_create-IsWell creating (get32 (wdf.input_buffer request 4).1 0) d fresh w in
      either_way Kept (not (nt_success (wdf.input_buffer request 4).0)) w (
        either_way Kept (not (nt_success (wdf.output_buffer request 8).0)) w
          (either_way Kept _ created created))

  claimed_IsWell :
      (index : ℕ) (result : Option (ℕ × PortPair wdf.Queue) × List Slot)
      → Claims index d.heap d.ports result
      → IsWell d
      → IsWell
          (elim result.0 as (λ _. Driver wdf.Queue × Completion wdf.Request) [
            | none ↦ (d, complete request not_found)
            | some (p, pp) ↦ (
              port_pair_destroy destroying p
                  (record pp { active = false })
                  (record d { ports = result.1; port_count = sub32 d.port_count 1 }),
              complete request success,
            )
          ]).0
  claimed_IsWell index (none, rest) c w = w
  claimed_IsWell index (some (p, pp), rest) c w = destroyed_IsWell destroying index d p pp rest c w

  handle_destroy_port-IsWell : IsWell d → IsWell (handle_destroy_port wdf destroying d request).0
  unfolding handle_destroy_port
  handle_destroy_port-IsWell w =
      let index : ℕ = get32 (wdf.input_buffer request 4).1 0 in
      either_way Kept (not (nt_success (wdf.input_buffer request 4).0)) w (
        claimed_IsWell index (claim index d.heap d.ports)
          (claim-Claims index d.heap d.ports w.sound) w)

  -- A request to the control device leaves the table well.
  pub control_io_device_control-IsWell :
      (code : ControlIoctl)
      → IsWell d
      → IsWell (control_io_device_control wdf creating destroying d request code).0
  unfolding control_io_device_control
  control_io_device_control-IsWell code w = either_way Kept (not d.g_dev_ctx) w (by_code code)
    where
      by_code :
          (code : ControlIoctl)
          → IsWell
              (elim code as (λ _. Driver wdf.Queue × Completion wdf.Request) [
                | create_port ↦ handle_create_port wdf creating d request
                | destroy_port ↦ handle_destroy_port wdf destroying d request
                | list_ports ↦ (d, handle_list_ports wdf d request)
                | get_version ↦ (d, handle_get_version wdf request)
                | other _ ↦ (d, complete request invalid_device_request)
              ]).0
      by_code create_port = handle_create_port-IsWell w
      by_code destroy_port = handle_destroy_port-IsWell w
      by_code list_ports = w
      by_code get_version = w
      by_code (other _) = w
